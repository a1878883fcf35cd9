-- ===== src/Windows/Live/Services.antt =====
-- src/windows/live.ts and src/windows/service-health.ts: services and listeners.
use agentv.Base.{
  ℕ, String, [], ◌∷◌, map, Bool, true, false, not, ◌&&◌, ◌||◌, ◌==◌, Option, none, some,
  if◌then◌else◌, string_eq, nat_eq, option_eq, keep,
}
use agentv.Base.Json.{Fields, text, field, end}
use agentv.Base.Result.{Result, ok, ◌>>=◌}
use agentv.Base.Text.{concat}
use agentv.Adapters.Sockets.{Protocol, same_protocol}
use agentv.Errors.{Thrown, tool, tool_error, resource_not_found}
use agentv.Windows.Live.{
  WindowsList, WindowsQuery, WindowsService, WindowsListener, Host, collect, only_row, filter,
}

-- `isFailedService`: affirmative evidence of the service manager.
unfoldable pub is_failed_service : WindowsService → Bool
is_failed_service s =
    s.state == some "Stopped"
    && (s.start_mode == some "Auto"
        || s.start_mode == some "Manual"
        || s.start_mode == some "Automatic")
    && elim s.exit_code [ none ↦ false | some code ↦ not (code == 0) && not (code == 1077) ]

-- A service-specific code counts only with the exit code that says so.
abbrev pub with_own_code : WindowsService → WindowsService
with_own_code s = record s {
  service_specific_exit_code =
      if s.exit_code == some 1066 then s.service_specific_exit_code else none;
}

abbrev pub in_state : Option String → WindowsService → Bool
in_state none s = true
in_state (some state) s =
    state == "all" || (if state == "failed" then is_failed_service s else s.state == some state)

unfoldable pub list_services :
    Host → Option String → WindowsQuery → Result Thrown (WindowsList WindowsService)
list_services h state input = do
  result ← collect h h.services "services" 1000 end
  ok (
      filter h input (λ (s : WindowsService). concat (s.name ∷ " " ∷ s.display_name ∷ []))
        (record result { items = keep (in_state state) (map with_own_code result.items) }))

unfoldable pub get_service : Host → String → Result Thrown WindowsService
get_service h name = do
  found ←
      only_row h h.services "services" (field "name" (text name) end)
        (tool (tool_error resource_not_found "Service not found"))
  ok (with_own_code (found.0))

abbrev protocol_name : Protocol → String
protocol_name Protocol.tcp = "tcp"
protocol_name Protocol.udp = "udp"

abbrev protocol_field : Option Protocol → Fields
protocol_field none = end
protocol_field (some p) = field "protocol" (text (protocol_name p)) end

abbrev is_protocol : Option Protocol → WindowsListener → Bool
is_protocol none l = true
is_protocol (some p) l = same_protocol l.protocol p

abbrev is_port : Option ℕ → WindowsListener → Bool
is_port none l = true
is_port (some port) l = port == 0 || l.port == port

unfoldable pub list_listeners :
    Host → Option Protocol → Option ℕ → WindowsQuery → Result Thrown (WindowsList WindowsListener)
list_listeners h protocol port input = do
  result ← collect h h.listeners "listeners" 1000 (protocol_field protocol)
  ok (
      filter h input (λ (l : WindowsListener). l.address)
        (record result {
          items = keep (λ l. is_protocol protocol l && is_port port l) result.items;
        }))
