-- ===== src/Examples/Config.antt =====
-- Runs of src/config.ts.
use agentv.Base.{◌≡◌, refl, [], none, true}
use agentv.Base.Result.{ok}
use agentv.Config.{Process, Limits, Defaults, read_limits, read_defaults, int_env}

-- A process in whose environment nothing is set.
abbrev bare : Process
bare = record {
  variable = λ n. "";
  number = λ s. none;
  lower_case = λ s. s;
  items = λ s. [];
  trim = λ s. s;
  url = λ s. none;
  ca_bundle_fits = λ s. true;
  package_version = ok "1.0.0";
}

abbrev limits : Limits
limits = record {
  min_interval_ms = 10000;
  max_interval_ms = 3600000;
  min_bytes = 16384;
  max_remote_bytes = 1048576;
}

abbrev defaults : Defaults
defaults = record { interval_ms = 60000; max_bytes = 1048576 }

limits_read : read_limits bare ≡ ok limits
unfolding read_limits int_env
limits_read = refl

defaults_read : read_defaults bare limits ≡ ok defaults
unfolding read_defaults int_env
defaults_read = refl
