-- ===== src/Config/Mode.antt =====
-- src/config.ts: where the mode of the collectors comes from.
use agentv.Base.{◌≡◌, ap, ◌∙◌, [], not, ◌&&◌, ◌==◌, ◌!=◌, any, string_eq, if◌then◌else◌}
use agentv.Base.Result.{ok, bind_inv, fail_if_inv, ok_inj}
use agentv.Config.{
  Process, AgentConfig, Host, load_host, load_access, load_config, env, bool_env, csv_env, is_pair,
  is_channel, platform_url, read_defaults, log_level_env,
}

load_host-mode :
    (p : Process) (h : Host)
    → load_host p ≡ ok h
    → env p "ACORNOPS_VM_COLLECTOR_MODE" "live" ≡ ok h.collector_mode
unfolding load_host
load_host-mode p h e =
    let (insecure, _, e₁) = bind_inv {m = bool_env p "ACORNOPS_AGENT_ALLOW_INSECURE_TRANSPORT"} e in
    let (kind, _, e₂) = bind_inv {m = env p "ACORNOPS_AGENT_TARGET_TYPE" "virtual_machine"} e₁ in
    let (_, e₃) = fail_if_inv (kind != "virtual_machine") _ e₂ in
    let (os, _, e₄) = bind_inv {m = env p "ACORNOPS_VM_OS_FAMILY" "linux"} e₃ in
    let (manager, _, e₅) = bind_inv {m = env p "ACORNOPS_VM_SERVICE_MANAGER" "systemd"} e₄ in
    let (_, e₆) = fail_if_inv (not (is_pair os manager)) _ e₅ in
    let (channels, _, e₇) =
      bind_inv {m = if os == "windows" then csv_env p "ACORNOPS_VM_ALLOWED_LOG_CHANNELS" else ok []}
        e₆ in
    let (_, e₈) = fail_if_inv (any (λ c. not (is_channel c)) channels) _ e₇ in
    let (mode, read, e₉) = bind_inv {m = env p "ACORNOPS_VM_COLLECTOR_MODE" "live"} e₈ in
    let (_, last) = fail_if_inv (mode != "live" && mode != "mock") _ e₉ in
    read ∙ ap (λ (u : Host). ok u.collector_mode) (ok_inj last)

-- The mode of a configuration that is loaded is the one that the environment names.
pub load_config-mode :
    (p : Process) (c : AgentConfig)
    → load_config p ≡ ok c
    → env p "ACORNOPS_VM_COLLECTOR_MODE" "live" ≡ ok c.collector_mode
unfolding load_config
load_config-mode p c e =
    let (h, host, e₁) = bind_inv {m = load_host p} e in
    let (a, _, e₂) = bind_inv {m = load_access p h} e₁ in
    let (url, _, e₃) = bind_inv {m = platform_url p h.allow_insecure_transport} e₂ in
    let (version, _, e₄) = bind_inv {m = p.package_version} e₃ in
    let (d, _, e₅) = bind_inv {m = read_defaults p a.limits} e₄ in
    let (level, _, e₆) = bind_inv {m = log_level_env p} e₅ in
    let (units, _, e₇) = bind_inv {m = csv_env p "ACORNOPS_VM_ALLOWED_LOG_UNITS"} e₆ in
    load_host-mode p h host ∙ ap (λ (u : AgentConfig). ok u.collector_mode) (ok_inj e₇)
