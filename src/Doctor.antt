-- ===== src/Doctor.antt =====
-- src/doctor.ts: the readiness checks, over what the adapters and the helper answer.
use agentv.Base.{
  ◌≡◌, String, Bool, true, false, not, ◌&&◌, ◌==◌, List, [], ◌∷◌, ◌++◌, map, Option, none, some,
  if◌then◌else◌, string_eq, all, any, length, ltb, arith,
}
use agentv.Base.Decimal.{show}
use agentv.Base.Text.{concat, codes, starts_with}
use agentv.Actions.Types.{HelperCapabilities}
use agentv.Config.{AgentConfig}

pub data Status : Type 0 where
  ok degraded failed : Status

pub record Check : Type 0 where
  pub name : String
  pub status : Status
  pub message : String

-- What is called; `false` and `none` are exceptions.
pub record Dependencies : Type 0 where
  pub resolve_executable : List String → Option String
  pub host_summary : Bool
  pub filesystems : Bool
  pub logs : Bool
  pub capabilities : Option HelperCapabilities

abbrev check : String → Status → String → Check
check name status message = record { name = name; status = status; message = message }

-- `try { …; push(passed) } catch { push(otherwise) }`
abbrev attempt : Bool → Check → Check → Check
attempt succeeded passed otherwise = if succeeded then passed else otherwise

abbrev binaries : List (String × List String)
binaries =
    ("systemctl", "/bin/systemctl" ∷ [])
    ∷ ("systemd-notify", "/usr/bin/systemd-notify" ∷ [])
    ∷ ("journalctl", "/bin/journalctl" ∷ [])
    ∷ ("df", "/bin/df" ∷ [])
    ∷ ("ss", "/usr/bin/ss" ∷ "/usr/sbin/ss" ∷ [])
    ∷ []

abbrev check_binary : Dependencies → String × List String → Check
check_binary d (name, paths) = elim (d.resolve_executable paths) [
  | some resolved ↦ check (concat ("binary:" ∷ name ∷ [])) ok resolved
  | none ↦ check (concat ("binary:" ∷ name ∷ [])) failed "missing or not executable"
]

abbrev check_capabilities : Option HelperCapabilities → Check
check_capabilities none =
    check "helper" degraded "Write is locally enabled but the helper is unavailable"
check_capabilities (some c) =
    check "helper" (if c.policy_valid && ltb 0 (length c.restart_services) then ok else degraded)
      (concat (show (length c.restart_services) ∷ " restart service(s) allowlisted" ∷ []))

abbrev check_helper : AgentConfig → Dependencies → Check
check_helper config d =
    if config.write_enabled
    then check_capabilities d.capabilities
    else check "helper" ok "Write helper intentionally disabled"

abbrev check_tls : AgentConfig → Check
check_tls config =
    if starts_with (codes "https://") (codes config.platform_url)
    then check "tls" ok "Secure platform transport configured"
    else check "tls" degraded "Insecure local-development transport configured"

abbrev is_failed_check : Check → Bool
is_failed_check c = elim c.status [ ok ↦ false | degraded ↦ false | failed ↦ true ]

unfoldable pub run_doctor : AgentConfig → Dependencies → Bool × List Check
run_doctor config d =
    let checks =
      map (check_binary d) binaries
      ++ attempt d.host_summary (check "host" ok "Linux host facts are readable")
          (check "host" failed "Linux host facts are unavailable")
        ∷ attempt d.filesystems (check "filesystems" ok "Filesystem facts are readable")
            (check "filesystems" failed "Filesystem facts are unavailable")
        ∷ attempt d.logs (check "journald" ok "Journal is readable") (
            check "journald" degraded
              "Journal is not readable; add the agent user to systemd-journal when available")
        ∷ check_helper config d
        ∷ check_tls config
        ∷ [] in
    (not (any is_failed_check checks), checks)

abbrev is_live : String → Bool
is_live mode = not (mode == "mock")

unfoldable pub run_windows_doctor : AgentConfig → Bool → Bool × List Check
run_windows_doctor config host_summary =
    let checks =
      attempt host_summary
        (check "windows_host" ok (
          if is_live config.collector_mode
          then "Windows Server host facts readable"
          else "Synthetic Windows mock; no native qualification"))
        (check "windows_host" failed "Native Windows Server evidence unavailable")
      ∷ check "writes" (if config.write_enabled then failed else ok)
          "Windows supports read-only access"
      ∷ [] in
    (all (λ (c : Check). not (is_failed_check c)) checks, checks)

-- The doctor is content exactly if every binary is found and the host and its filesystems can be read:
-- neither the journal nor the helper nor the transport fails it.
pub run_doctor_exact :
    (config : AgentConfig) (d : Dependencies)
    → (run_doctor config d).0 ≡ (
        all
          (λ (b : String × List String). elim (d.resolve_executable (b.1)) [
            | none ↦ false
            | some _ ↦ true
          ])
          binaries
        && d.host_summary
        && d.filesystems)
unfolding run_doctor
run_doctor_exact config d = ground arith
