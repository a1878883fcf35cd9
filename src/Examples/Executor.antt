-- ===== src/Examples/Executor.antt =====
-- Runs of the tool executor of src/tools/executor.ts.
use mathlib.Core.List.{reverse}
use agentv.Base.{
  ◌+◌, ◌≤◌, ◌<◌, String, ◌≡◌, ◌↔◌, refl, true, false, List, [], ◌∷◌, ◌++◌, none, some, length,
}
use agentv.Base.Json.{nat, obj, end}
use agentv.Base.Result.{ok, err}
use agentv.Errors.{Thrown}
use agentv.Metrics.{initial}
use agentv.Registry.{ToolCapability, ToolDefinition, ArtifactPolicy, Status, ModelContextEnvelope}
use agentv.Executor.Authorize.{Env, Input, ToolSessionPolicy, bytes, string, authorize}
use agentv.Executor.Gate.{Call}
use agentv.Executor.{
  ToolExecutor, reject_all, controller_ids, Event, invoke, resume, set_active_generation, returned,
  threw, create, run, conclude, on_clear_generation, escape,
}
use agentv.Executor.Answers.{run_answers}
use agentv.Executor.Bounds.{run_bounded, reached-Inv}
use agentv.Executor.Counts.{answered, invoked, waits}
use agentv.Executor.Balance.{holders}
use agentv.Executor.Sessions.{authorize_exact, clear_generation_cancels, Permitted}

abbrev envelope : ModelContextEnvelope
envelope = record {
  schema_version = "acornops.model-context.v1";
  tool = "get_host";
  status = Status.success;
  summary = "ok";
  contents = obj end;
  omissions = [];
}

abbrev tool : String → ToolCapability → ToolDefinition
tool name cap = record {
  name = name;
  description = "a tool";
  capability = cap;
  schema = λ a. ok (nat 1);
  output_schema = obj end;
  timeout_ms = 5000;
  artifact_policy = ArtifactPolicy.never;
  version = "1";
  deprecated = false;
  project_for_model = λ v a. envelope;
}

abbrev env : Env
env = record {
  read_concurrency = 1;
  write_concurrency = 1;
  queue_limit = 1;
  max_input_bytes = 100;
  max_output_bytes = 200;
  tools = record {
    tools =
        ("get_host", tool "get_host" ToolCapability.read)
        ∷ ("restart_service", tool "restart_service" ToolCapability.write)
        ∷ [];
  };
  serialize = λ v. bytes 10;
  sha256 = λ s. "0123456789abcdef0123456789abcdef";
  redact = λ v. v;
}

abbrev policy : ToolSessionPolicy
policy = record {
  allowed_tools = "get_host" ∷ "restart_service" ∷ [];
  write_enabled = true;
  generation = 3;
  target_id = "vm-1";
}

abbrev input : String → Input
input name = record {
  name = name;
  arguments = some (obj end);
  request_id = string "r";
  policy = policy;
}

-- Three reads: the first runs, the second waits, the third finds the queue full.
abbrev three_reads : List Event
three_reads =
    set_active_generation 3
    ∷ invoke 1 true (input "get_host")
    ∷ resume ToolCapability.read 1
    ∷ invoke 2 true (input "get_host")
    ∷ invoke 3 true (input "get_host")
    ∷ []

run_bounded_example :
    let s = run env (create env) three_reads in
    (holders s.read ≤ 1)
    × (holders s.write ≤ 1)
    × (length s.read.gate.queue + length s.write.gate.queue ≤ 1)
    × (0 < length s.read.gate.queue → holders s.read ≡ 1)
    × (0 < length s.write.gate.queue → holders s.write ≡ 1)
run_bounded_example = run_bounded env three_reads

-- the third read finds both places taken
run_answers_example :
    let s = run env (create env) three_reads in
    answered 3 s.replies + waits 3 s.read + waits 3 s.write ≡ invoked 3 three_reads
run_answers_example = run_answers env three_reads 3

authorize_exact_example :
    ((authorize env (some 3) true (input "get_host") initial).0
      ≡ ok (tool "get_host" ToolCapability.read))
    ↔ Permitted env (some 3) true (input "get_host") (tool "get_host" ToolCapability.read)
authorize_exact_example =
    authorize_exact env (some 3) true (input "get_host") initial
      (tool "get_host" ToolCapability.read)

abbrev write_call : Call
write_call = record {
  id = 7;
  name = "restart_service";
  capability = ToolCapability.write;
  generation = 3;
  operation_id = "0123456789abcdef01234567";
}

concluded : conclude env (some 3) write_call (returned (some (nat 5))) ≡ (ok (some (nat 5)), false)
unfolding conclude
concluded = refl

refused :
    conclude env (some 3) write_call (threw (Thrown.other "EACCES"))
    ≡ (err (escape write_call (Thrown.other "EACCES")), false)
unfolding conclude
refused = refl

abbrev busy_state : ToolExecutor
busy_state = run env (create env) three_reads

clear_generation_cancels_example :
    let s' = on_clear_generation busy_state in
    (s'.active_generation ≡ none)
    × (length s'.read.gate.queue + length s'.write.gate.queue ≡ 0)
    × (s'.replies
        ≡ busy_state.replies
          ++ (reject_all (reverse busy_state.read.gate.queue)
              ++ reject_all (reverse busy_state.write.gate.queue)))
    × (s'.aborted ≡ busy_state.aborted ++ controller_ids busy_state.controllers)
clear_generation_cancels_example =
    clear_generation_cancels env busy_state (reached-Inv env three_reads)
