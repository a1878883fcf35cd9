-- ===== src/Examples/Tools.antt =====
-- Runs of src/tools and of src/redaction.ts.
use agentv.Base.{◌≡◌, refl, arith, String, true, none, ◌==◌, string_eq, if◌then◌else◌}
use agentv.Base.Json.{Value, text, obj, arr, field, end, nil, cons}
use agentv.Base.Result.{ok}
use agentv.Base.Sort.{less}
use agentv.ModelContext.{Codec, compact_value, tight}
use agentv.ModelContext.Compact.{fits, compact_value-fits}
use agentv.Redaction
use agentv.Redaction.{IsSafe, redact_value, redact_value-IsSafe}
use agentv.Tools.Restart.{RestartInput, transform}
use agentv.Tools.RoundTrip.{transform_display}

abbrev restart_input : RestartInput
restart_input = record {
  unit = "nginx.service";
  reason = "stuck";
  expected_active_state = "";
  expected_sub_state = "";
  expected_invocation_id = none;
}

abbrev running_input : RestartInput
running_input = record restart_input {
  expected_active_state = "active";
  expected_sub_state = "running";
}

transform_display_example :
    (transform running_input ≡ ok running_input)
    × (transform (record running_input { expected_active_state = "active (running)" })
        ≡ ok running_input)
transform_display_example = transform_display restart_input "active" "running" refl refl

abbrev shown_value : Value
shown_value =
    obj (field "apiToken" (text "t") (field "rows" (arr (cons (text "Bearer x") nil)) end))

abbrev shown : String → String
shown s = if s == "Bearer x" then "Bearer <redacted>" else s

shown_value_redacted :
    redact_value shown "" shown_value
    ≡ obj (
        field "apiToken"
          (text "<redacted>")
          (field "rows" (arr (cons (text "Bearer <redacted>") nil)) end))
unfolding redact_value Redaction.unless_secret Redaction.is_secret_key Redaction.redact_plain
shown_value_redacted = refl

redact_value-IsSafe_example : IsSafe shown (redact_value shown "" shown_value)
redact_value-IsSafe_example = redact_value-IsSafe shown "" shown_value

abbrev codec : Codec
codec = record { locale_compare = λ a b. less; byte_length = λ v. 0 }

compact_value-fits_example :
    fits tight 2 ((compact_value codec tight 2 "data" shown_value).kept) ≡ true
compact_value-fits_example = compact_value-fits codec tight (omega arith) 2 "data" shown_value
