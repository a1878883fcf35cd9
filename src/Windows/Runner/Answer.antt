-- ===== src/Windows/Runner/Answer.antt =====
-- src/windows/runner.ts: what the call of a collector returns.
use agentv.Base.{
  ℕ, ◌+◌, ◌≤◌, ◌≡◌, refl, sym, ap, subst, ◌∙◌, inl, inr, String, List, [], ◌∷◌, ◌++◌, ◌==◌, Option,
  none, some, nat_eq, option_eq, arith, length, ltb, Bool-cases, Option-cases,
}
use mathlib.Core.List.{append_assoc, append-nil}
use agentv.Base.Result.{ok, err}
use agentv.Base.Json.{Fields, spread}
use agentv.Errors.{Thrown, ToolExecutionError, tool_error_with}
use agentv.Windows.Runner.{
  Codec, CollectorResult, Child, ChildEvent, spawned, stdin_finished, aborted, timer_fired,
  start_failed, stdout_data, stderr_data, spawn, kill, on_spawn, on_stdout, on_stderr, byte_limit,
  child_step, child_run, flat, parse_collector_result, on_close, diagnostics,
}
use agentv.Windows.Runner.Output.{
  printed, all_printed, flat-append, fails, observe_stage-ReadsLine, spawn-IsSound,
  child_run-IsSound,
}

-- The first failure of a process stays.
step_failure :
    (c : Child) (e : ChildEvent) (x : ToolExecutionError)
    → c.failure ≡ some x
    → (child_step c e).failure ≡ some x
unfolding child_step on_spawn kill on_stdout on_stderr
step_failure c spawned x h = h
step_failure c stdin_finished x h = h
step_failure c aborted x h = ground arith
step_failure c timer_fired x h = ground arith
step_failure c start_failed x h = ground arith
step_failure c (stdout_data chunk) x h = ground arith
step_failure c (stderr_data chunk) x h =
    elim (Bool-cases (ltb byte_limit (c.bytes + length chunk))) [
      | inl large ↦ rw large (ground arith)
      | inr small ↦ rw small ((observe_stage-ReadsLine chunk _).failure ∙ h)
    ]

run_failure :
    (c : Child) (es : List ChildEvent) (x : ToolExecutionError)
    → c.failure ≡ some x
    → (child_run c es).failure ≡ some x
unfolding child_run
run_failure c [] x h = h
run_failure c (e ∷ es) x h = run_failure (child_step c e) es x (step_failure c e x h)

run_no_failure :
    (c : Child) (es : List ChildEvent) → (child_run c es).failure ≡ none → c.failure ≡ none
run_no_failure c es h = elim (Option-cases c.failure) [
  | inl e ↦ e
  | inr (x, e) ↦ absurd (cc (sym h ∙ run_failure c es x e))
]

-- a step that does not fail keeps all that was printed
step_output :
    (c : Child) (e : ChildEvent)
    → (child_step c e).failure ≡ none
    → flat ((child_step c e).output) ≡ flat c.output ++ printed e
unfolding child_step on_spawn kill on_stdout on_stderr
step_output c spawned h = sym (append-nil _)
step_output c stdin_finished h = sym (append-nil _)
step_output c aborted h = fails c.failure _ h
step_output c timer_fired h = fails c.failure _ h
step_output c start_failed h = fails c.failure _ h
step_output c (stdout_data chunk) h = elim (Bool-cases (ltb byte_limit (c.bytes + length chunk))) [
  | inl large ↦ fails c.failure _ (rw (large, child_step, on_stdout) at h)
  | inr small ↦
      rw small (flat-append c.output (chunk ∷ []) ∙ ap (λ r. flat c.output ++ r) (append-nil chunk))
]
step_output c (stderr_data chunk) h = elim (Bool-cases (ltb byte_limit (c.bytes + length chunk))) [
  | inl large ↦ fails c.failure _ (rw (large, child_step, on_stderr) at h)
  | inr small ↦ rw small (ap flat ((observe_stage-ReadsLine chunk _).output) ∙ sym (append-nil _))
]

run_output :
    (c : Child) (es : List ChildEvent)
    → (child_run c es).failure ≡ none
    → flat ((child_run c es).output) ≡ flat c.output ++ all_printed es
unfolding child_run
run_output c [] h = sym (append-nil _)
run_output c (e ∷ es) h =
    run_output (child_step c e) es h
    ∙ ap (λ r. r ++ all_printed es) (step_output c e (run_no_failure (child_step c e) es h))
    ∙ append_assoc (flat c.output) (printed e) (all_printed es)

-- A call returns a result only if its process exited with 0, and then what is parsed is everything that
-- the process printed on its standard output, which is within the limit of 1 MiB.
pub on_close_complete :
    (codec : Codec) (script : String) (exit_code : Option ℕ) (es : List ChildEvent)
    (r : CollectorResult)
    → on_close codec script exit_code (child_run spawn es) ≡ ok r
    → (exit_code ≡ some 0)
      × ((parse_collector_result codec (codec.decode (all_printed es)) ≡ ok r)
          × (length (all_printed es) ≤ byte_limit))
unfolding on_close
on_close_complete codec script exit_code es r h =
    elim (Option-cases ((child_run spawn es).failure)) [
      | inl fine ↦
          let whole : flat ((child_run spawn es).output) ≡ all_printed es =
            unfold spawn in run_output spawn es fine in
          elim (Bool-cases (exit_code == some 0)) [
            | inl zero_code ↦ (
              (option_eq.beq_iff exit_code (some 0)).0 zero_code,
              (
                rw (← whole) (rw (fine, on_close, zero_code) at h),
                subst (λ xs. length xs ≤ byte_limit) whole
                    (child_run-IsSound spawn es spawn-IsSound).kept,
              ),
            )
            | inr other_code ↦ cc (rw (fine, on_close, other_code) at h)
          ]
      | inr (x, e) ↦ cc (rw (e, on_close) at h)
    ]

-- The failure of a call is the first that its process had, whatever comes later.
pub on_close_first_failure :
    (codec : Codec) (script : String) (exit_code : Option ℕ) (before after : List ChildEvent)
    (x : ToolExecutionError)
    → (child_run spawn before).failure ≡ some x
    → (details : Fields) × (on_close codec script exit_code
          (child_run (child_run spawn before) after)
        ≡ err (Thrown.tool (tool_error_with x.tool_code x.message details)))
unfolding on_close
on_close_first_failure codec script exit_code before after x h =
    let later = run_failure (child_run spawn before) after x h in
    (
      spread x.details (diagnostics script (child_run (child_run spawn before) after)),
      rw (later, on_close) refl,
    )
