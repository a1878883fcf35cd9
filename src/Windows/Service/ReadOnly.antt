-- ===== src/Windows/Service/ReadOnly.antt =====
-- src/windows-service-entry.ts: a service runs live and read-only, whatever its environment was.
use agentv.Base.{
  ◌*◌, ◌≡◌, refl, sym, ap, subst, ◌∙◌, String, List, [], ◌∷◌, Bool, true, false, not, ◌||◌, ◌==◌,
  ◌!=◌, Option, none, some, string_eq, option_eq, arith, ltb, not-false, all, contains, and_inv,
  and_intro, Bool-cases, inl, inr,
}
use agentv.Base.Result.{ok, bind_inv, fail_if_inv, ok_inj}
use agentv.Base.Table.{
  lookup, insert, insert_all, from_entries, or_lookup, is_distinct, lookup-insert_all,
  insert_all-distinct,
}
use agentv.Config.{Process, AgentConfig, load_config, env}
use agentv.Config.Mode.{load_config-mode}
use agentv.Windows.Readiness
use agentv.Windows.Readiness.{Faults, Readiness, disconnected}
use agentv.Windows.Service.{Launch}
use agentv.Windows.Service.Settings.{
  Settings, Codec, File, settings_keys, fixed, has_unknown, has_conflict, read_settings,
  check_settings, read_file, is_launched, parse_windows_service_config, environment,
  with_environment, check_runtime, start_from_protected_config,
}
use agentv.Windows.Service.Variables.{read_variable, has_upper, read-assign}

or_inv_false : (a b : Bool) → (a || b) ≡ false → (a ≡ false) × (b ≡ false)
or_inv_false a b h = ground arith

all-contained :
    (p : String → Bool) (xs : List String) (a : String)
    → all p xs ≡ true
    → contains xs a ≡ true
    → p a ≡ true
all-contained p [] a h m = cc
all-contained p (x ∷ xs) a h m =
    let (first, others) = and_inv (p x) _ h in
    elim (Bool-cases (x == a)) [
      | inl e ↦ sym (ap p ((string_eq.beq_iff x a).0 e)) ∙ first
      | inr e ↦ all-contained p xs a others (rw e at m)
    ]

-- every key of these settings is one that the service knows
abbrev all_known : Settings → Bool
all_known = all (λ (e : String × String). contains settings_keys (e.0))

insert-all_known :
    (name value : String) (settings : Settings)
    → contains settings_keys name ≡ true
    → all_known settings ≡ true
    → all_known (insert name value settings) ≡ true
insert-all_known name value [] h known = and_intro h refl
insert-all_known name value ((k, v) ∷ settings) h known =
    let (first, others) = and_inv (contains settings_keys k) _ known in
    elim (Bool-cases (k == name)) [
      | inl e ↦ rw e (and_intro first others)
      | inr e ↦ rw e (and_intro first (insert-all_known name value settings h others))
    ]

insert_all-all_known :
    (es settings : Settings)
    → all_known es ≡ true
    → all_known settings ≡ true
    → all_known (insert_all es settings) ≡ true
insert_all-all_known [] settings h known = known
insert_all-all_known ((k, v) ∷ es) settings h known =
    let (first, others) = and_inv (contains settings_keys k) _ h in
    insert_all-all_known es (insert k v settings) others (insert-all_known k v settings first known)

has_unknown-all_known :
    (settings : Settings) → has_unknown settings ≡ false → all_known settings ≡ true
has_unknown-all_known [] h = refl
has_unknown-all_known ((k, v) ∷ settings) h =
    let (first, others) = or_inv_false (not (contains settings_keys k)) _ h in
    and_intro (not-false _ first) (has_unknown-all_known settings others)

-- a known key is the same in upper case
known-upper :
    (fold : String → String) (settings : Settings)
    → all (λ k. fold k == k) settings_keys ≡ true
    → all_known settings ≡ true
    → has_upper fold settings ≡ true
known-upper fold [] h known = refl
known-upper fold ((k, v) ∷ settings) h known =
    let (first, others) = and_inv (contains settings_keys k) _ known in
    and_intro (all-contained (λ k. fold k == k) settings_keys k h first)
      (known-upper fold settings h others)

-- What is accepted as settings: the fixed ones are put on top of others.
record Accepted (settings : Settings) : Type 0 where
  given : Settings
  distinct : is_distinct given ≡ true
  known : all_known given ≡ true
  same : insert_all fixed given ≡ settings

check_settings_inv :
    (entries : Option Settings) (settings : Settings)
    → check_settings entries ≡ ok settings
    → Accepted settings
check_settings_inv none settings h = cc
check_settings_inv (some entries) settings h =
    let given = from_entries entries in
    let (no_unknown, h₁) = fail_if_inv (has_unknown given) _ h in
    let (_, h₂) = fail_if_inv (has_conflict given) _ h₁ in
    record {
      given = given;
      distinct = insert_all-distinct entries [] refl;
      known = has_unknown-all_known given no_unknown;
      same = ok_inj h₂;
    }

parse_inv :
    (c : Codec) (raw : String) (settings : Settings)
    → parse_windows_service_config c raw ≡ ok settings
    → Accepted settings
unfolding parse_windows_service_config
parse_inv c raw settings h =
    let (_, h₁) = fail_if_inv (ltb (64 * 1024) (c.byte_length raw)) _ h in
    check_settings_inv (read_settings (c.parse_json raw)) settings h₁

-- a setting that is fixed is what the environment says, whatever it was before
environment-fixed :
    (c : Codec) (settings old : Settings) (name value : String)
    → Accepted settings
    → all (λ k. c.fold k == k) settings_keys ≡ true
    → (c.fold name == name) ≡ true
    → lookup name fixed ≡ some value
    → read_variable c.fold name (environment c settings old) ≡ some value
environment-fixed c settings old name value a upper h f =
    let given = a.given in
    let distinct : is_distinct settings ≡ true =
      subst (λ (t : Settings). is_distinct t ≡ true) a.same
        (insert_all-distinct fixed given a.distinct) in
    let known : all_known settings ≡ true =
      subst (λ (t : Settings). all_known t ≡ true) a.same
        (insert_all-all_known fixed given refl a.known) in
    let found : lookup name settings ≡ some value =
      subst (λ (t : Settings). lookup name t ≡ some value) a.same
        (lookup-insert_all name fixed given refl ∙ ap (λ o. or_lookup o (lookup name given)) f) in
    read-assign c.fold settings _ name distinct (known-upper c.fold settings upper known) h
    ∙ rw found refl

-- A configuration that a service of Windows runs with.
pub record IsReadOnly (config : AgentConfig) : Type 0 where
  pub os : config.os_family ≡ "windows"
  pub manager : config.service_manager ≡ "scm"
  pub write : config.write_enabled ≡ false
  pub mock : config.mock_actions_enabled ≡ false
  pub mode : config.collector_mode ≡ "live"

check_runtime-IsReadOnly :
    (c config : AgentConfig)
    → check_runtime c ≡ ok config
    → c.collector_mode ≡ "live"
    → (c ≡ config) × IsReadOnly config
check_runtime-IsReadOnly c config h live =
    let (good, h₁) =
      fail_if_inv
        (c.os_family != "windows"
          || c.service_manager != "scm"
          || c.write_enabled
          || c.mock_actions_enabled)
        _ h in
    let same = ok_inj h₁ in
    (
      same,
      subst IsReadOnly same (record {
        os = ground (arith, string_eq.beq_iff c.os_family "windows");
        manager = ground (arith, string_eq.beq_iff c.service_manager "scm");
        write = ground arith;
        mock = ground arith;
        mode = live;
      }),
    )

env_live : (p : Process) (name : String) → p.variable name ≡ "live" → env p name "live" ≡ ok "live"
unfolding env
env_live p name e = rw e refl

live_mode :
    (c : Codec) (p : Process) (settings old : Settings) (config : AgentConfig)
    → read_variable c.fold "ACORNOPS_VM_COLLECTOR_MODE" (environment c settings old) ≡ some "live"
    → load_config (with_environment c (environment c settings old) p) ≡ ok config
    → config.collector_mode ≡ "live"
live_mode c p settings old config named loaded =
    let q = with_environment c (environment c settings old) p in
    ok_inj (
      sym (load_config-mode q config loaded)
      ∙ env_live q "ACORNOPS_VM_COLLECTOR_MODE" (ap (λ o. elim o [ none ↦ "" | some v ↦ v ]) named))

pub start-IsReadOnly :
    (c : Codec) (p : Process) (file : Option File) (launch : Launch) (faults : Faults)
    (readiness : Readiness) (old : Settings) (config : AgentConfig)
    → all (λ k. c.fold k == k) settings_keys ≡ true
    → start_from_protected_config c p file (some launch) faults readiness old ≡ ok config
    → IsReadOnly config
      × ((raw : String) × (settings : Settings) × (c.sha256_hex raw ≡ launch.config_sha256)
          × (parse_windows_service_config c raw ≡ ok settings)
          × (load_config (with_environment c (environment c settings old) p) ≡ ok config)
          × (read_variable c.fold "ACORNOPS_VM_COLLECTOR_MODE" (environment c settings old)
              ≡ some "live")
          × (read_variable c.fold "ACORNOPS_AGENT_WRITE_ENABLED" (environment c settings old)
              ≡ some "false"))
unfolding start_from_protected_config
start-IsReadOnly c p file launch faults readiness old config upper h =
    let (raw, _, h₁) = bind_inv {m = read_file c file} h in
    let (hash, h₂) = fail_if_inv (not (is_launched c (some launch) raw)) _ h₁ in
    let (_, _, h₃) =
      bind_inv
        {m = (Readiness.call faults disconnected (record readiness { is_provisional = false })).1}
        h₂ in
    let (settings, parsed, h₄) = bind_inv {m = parse_windows_service_config c raw} h₃ in
    let (loaded_config, loaded, h₅) =
      bind_inv {m = load_config (with_environment c (environment c settings old) p)} h₄ in
    let accepted = parse_inv c raw settings parsed in
    let mode =
      environment-fixed c settings old "ACORNOPS_VM_COLLECTOR_MODE" "live" accepted upper
        (all-contained (λ k. c.fold k == k) settings_keys _ upper refl) refl in
    let (same, read_only) =
      check_runtime-IsReadOnly loaded_config config h₅
        (live_mode c p settings old loaded_config mode loaded) in
    (
      read_only,
      (
        raw,
        settings,
        (string_eq.beq_iff (c.sha256_hex raw) launch.config_sha256).0 (not-false _ hash),
        parsed,
        loaded ∙ ap ok same,
        mode,
        environment-fixed c settings old "ACORNOPS_AGENT_WRITE_ENABLED" "false" accepted upper
            (all-contained (λ k. c.fold k == k) settings_keys _ upper refl) refl,
      ),
    )
