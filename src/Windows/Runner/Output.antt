-- ===== src/Windows/Runner/Output.antt =====
-- src/windows/runner.ts: what a collector's process may print, and what its call returns.
use agentv.Base.{
  ℕ, ◌+◌, ◌≤◌, ◌≡◌, refl, sym, ap, ◌∙◌, inl, inr, List, [], ◌∷◌, ◌++◌, Option, none, some, nat_eq,
  option_eq, arith, length, length-append, ltb, Bool-cases,
}
use mathlib.Core.List.{append_assoc, append-nil}
use agentv.Errors.{ToolExecutionError}
use agentv.Windows.Runner.{
  Child, ChildEvent, spawned, stdin_finished, aborted, timer_fired, start_failed, stdout_data,
  stderr_data, spawn, kill, on_spawn, observe_byte, observe_stage, on_stdout, on_stderr, byte_limit,
  child_step, child_run, flat, first_failure,
}

-- What a process has printed on its standard output.
abbrev pub printed : ChildEvent → List ℕ
printed (stdout_data chunk) = chunk
printed _ = []

abbrev pub all_printed : List ChildEvent → List ℕ
all_printed [] = []
all_printed (e ∷ es) = printed e ++ all_printed es

-- Reading a line changes nothing but the line and the stage.
pub record ReadsLine (c d : Child) : Type 0 where
  line : length c.stderr_line ≤ 96 → length d.stderr_line ≤ 96
  pub output : d.output ≡ c.output
  pub failure : d.failure ≡ c.failure
  bytes : d.bytes ≡ c.bytes
  stdout_bytes : d.stdout_bytes ≡ c.stdout_bytes

observe_byte-ReadsLine : (byte : ℕ) (c : Child) → ReadsLine c (observe_byte byte c)
unfolding observe_byte
observe_byte-ReadsLine byte c = record {
  line = λ h. ground (arith, length-append c.stderr_line (byte ∷ []));
  output = ground arith;
  failure = ground arith;
  bytes = ground arith;
  stdout_bytes = ground arith;
}

pub observe_stage-ReadsLine : (chunk : List ℕ) (c : Child) → ReadsLine c (observe_stage chunk c)
unfolding observe_stage
observe_stage-ReadsLine [] c = record {
  line = λ h. h;
  output = refl;
  failure = refl;
  bytes = refl;
  stdout_bytes = refl;
}
observe_stage-ReadsLine (b ∷ chunk) c =
    let first = observe_byte-ReadsLine b c in
    let rest = observe_stage-ReadsLine chunk (observe_byte b c) in
    record {
      line = λ h. rest.line (first.line h);
      output = rest.output ∙ first.output;
      failure = rest.failure ∙ first.failure;
      bytes = rest.bytes ∙ first.bytes;
      stdout_bytes = rest.stdout_bytes ∙ first.stdout_bytes;
    }

pub flat-append : (xs ys : List (List ℕ)) → flat (xs ++ ys) ≡ flat xs ++ flat ys
flat-append [] ys = refl
flat-append (x ∷ xs) ys =
    ap (λ r. x ++ r) (flat-append xs ys) ∙ sym (append_assoc x (flat xs) (flat ys))

-- A process keeps lines of at most 96 characters and output within the limit, and while it has not
-- failed, everything it printed.
pub record IsSound (c : Child) : Type 0 where
  pub line : length c.stderr_line ≤ 96
  pub kept : length (flat c.output) ≤ byte_limit
  pub within : length (flat c.output) ≤ c.bytes
  pub failing : c.failure ≡ none → c.bytes ≤ byte_limit

pub spawn-IsSound : IsSound spawn
unfolding spawn
spawn-IsSound = record {
  line = omega arith;
  kept = omega arith;
  within = omega arith;
  failing = λ h. omega arith;
}

length-flat_snoc :
    (out : List (List ℕ)) (chunk : List ℕ)
    → length (flat (out ++ chunk ∷ [])) ≡ length (flat out) + length chunk
length-flat_snoc out chunk =
    ap length (flat-append out (chunk ∷ []) ∙ ap (λ r. flat out ++ r) (append-nil chunk))
    ∙ length-append (flat out) chunk

pub fails :
    {A : Type 0} (f : Option ToolExecutionError) (e : ToolExecutionError)
    → first_failure f e ≡ none
    → A
fails none e h = absurd (cc)
fails (some x) e h = absurd (cc)

kill-IsSound :
    (c : Child) (e : ToolExecutionError)
    → length c.stderr_line ≤ 96
    → length (flat c.output) ≤ byte_limit
    → length (flat c.output) ≤ c.bytes
    → IsSound (kill e c)
unfolding kill
kill-IsSound c e line kept within = record {
  line = line;
  kept = kept;
  within = within;
  failing = fails c.failure e;
}

on_stdout-IsSound : (chunk : List ℕ) (c : Child) → IsSound c → IsSound (on_stdout chunk c)
unfolding on_stdout
on_stdout-IsSound chunk c s = elim (Bool-cases (ltb byte_limit (c.bytes + length chunk))) [
  | inl large ↦ rw large (kill-IsSound _ _ s.line s.kept (omega (arith, s.within)))
  | inr small ↦
      let fits : c.bytes + length chunk ≤ byte_limit = ground arith in
      let count = length-flat_snoc c.output chunk in
      rw small (record {
        line = s.line;
        kept = omega (arith, count, fits, s.within);
        within = omega (arith, count, s.within);
        failing = λ h. fits;
      })
]

on_stderr-IsSound : (chunk : List ℕ) (c : Child) → IsSound c → IsSound (on_stderr chunk c)
unfolding on_stderr
on_stderr-IsSound chunk c s = elim (Bool-cases (ltb byte_limit (c.bytes + length chunk))) [
  | inl large ↦ rw large (kill-IsSound _ _ s.line s.kept (omega (arith, s.within)))
  | inr small ↦
      let fits : c.bytes + length chunk ≤ byte_limit = ground arith in
      let d : Child = record c {
        bytes = c.bytes + length chunk;
        stderr_bytes = c.stderr_bytes + length chunk;
      } in
      let r = observe_stage-ReadsLine chunk d in
      rw small (record {
        line = r.line s.line;
        kept = rw r.output s.kept;
        within = rw (r.output, r.bytes) (omega (arith, s.within));
        failing = λ h. rw r.bytes fits;
      })
]

child_step-IsSound : (c : Child) (e : ChildEvent) → IsSound c → IsSound (child_step c e)
unfolding child_step on_spawn
child_step-IsSound c spawned s = record {
  line = s.line;
  kept = s.kept;
  within = s.within;
  failing = s.failing;
}
child_step-IsSound c stdin_finished s = record {
  line = s.line;
  kept = s.kept;
  within = s.within;
  failing = s.failing;
}
child_step-IsSound c aborted s = kill-IsSound c _ s.line s.kept s.within
child_step-IsSound c timer_fired s = kill-IsSound c _ s.line s.kept s.within
child_step-IsSound c start_failed s = record {
  line = s.line;
  kept = s.kept;
  within = s.within;
  failing = fails c.failure _;
}
child_step-IsSound c (stdout_data chunk) s = on_stdout-IsSound chunk c s
child_step-IsSound c (stderr_data chunk) s = on_stderr-IsSound chunk c s

pub child_run-IsSound : (c : Child) (es : List ChildEvent) → IsSound c → IsSound (child_run c es)
unfolding child_run
child_run-IsSound c [] s = s
child_run-IsSound c (e ∷ es) s = child_run-IsSound (child_step c e) es (child_step-IsSound c e s)
