-- ===== src/Windows/Runner/Stopped.antt =====
-- src/windows/runner.ts, `stop`: what happens after it.
use agentv.Base.{
  ℕ, ◌+◌, ◌≤◌, ◌≡◌, refl, ap, ◌∙◌, inl, inr, List, [], ◌∷◌, map, Bool, true, ◌==◌, Option, none,
  some, nat_eq, arith, length, all, ltb, Bool-cases, and_inv, and_intro,
}
use agentv.Windows.Runner.{
  Codec, Child, ChildEvent, spawned, stdin_finished, aborted, timer_fired, start_failed,
  stdout_data, stderr_data, kill, on_spawn, observe_byte, observe_stage, on_stdout, on_stderr,
  byte_limit, child_step,
}
use agentv.Windows.Runner.Calls.{
  Call, Runner, run_call, go_on, on_trusted, update, take_child, settle, on_closed, end_child, stop,
  Event, called, trust_checked, child_event, closed, stop_called, step, run,
}

abbrev is_killed : Call × Child → Bool
is_killed (c, child) = child.killed

observe_stage_killed : (chunk : List ℕ) (c : Child) → (observe_stage chunk c).killed ≡ c.killed
unfolding observe_stage observe_byte
observe_stage_killed [] c = refl
observe_stage_killed (b ∷ chunk) c = observe_stage_killed chunk (observe_byte b c) ∙ ground arith

child_step_killed : (c : Child) (e : ChildEvent) → c.killed ≡ true → (child_step c e).killed ≡ true
unfolding child_step on_spawn kill on_stdout on_stderr
child_step_killed c spawned h = h
child_step_killed c stdin_finished h = h
child_step_killed c aborted h = refl
child_step_killed c timer_fired h = refl
child_step_killed c start_failed h = h
child_step_killed c (stdout_data chunk) h = ground arith
child_step_killed c (stderr_data chunk) h =
    elim (Bool-cases (ltb byte_limit (c.bytes + length chunk))) [
      | inl large ↦ rw large refl
      | inr small ↦ rw small (observe_stage_killed chunk _ ∙ h)
    ]

-- No process is started any more, and each that is left was told to end.
pub record IsStopped (count : ℕ) (r : Runner) : Type 0 where
  pub stopping : r.stopping ≡ true
  pub killed : all is_killed r.children ≡ true
  pub count_le : length r.children ≤ count

end_child_killed : (cs : List (Call × Child)) → all is_killed (map end_child cs) ≡ true
end_child_killed [] = refl
end_child_killed ((c, child) ∷ cs) = end_child_killed cs

length-end_child : (cs : List (Call × Child)) → length (map end_child cs) ≡ length cs
length-end_child [] = refl
length-end_child (c ∷ cs) = omega (arith, length-end_child cs)

update_killed :
    (id : ℕ) (e : ChildEvent) (cs : List (Call × Child))
    → all is_killed cs ≡ true
    → all is_killed (update id (λ c. child_step c e) cs) ≡ true
update_killed id e [] h = refl
update_killed id e ((c, child) ∷ cs) h =
    let (first, others) = and_inv child.killed _ h in
    elim (Bool-cases (c.id == id)) [
      | inl same ↦ rw same (and_intro (child_step_killed child e first) others)
      | inr other ↦ rw other (and_intro first (update_killed id e cs others))
    ]

length-update :
    (id : ℕ) (f : Child → Child) (cs : List (Call × Child)) → length (update id f cs) ≡ length cs
length-update id f [] = refl
length-update id f ((c, child) ∷ cs) = ground (arith, length-update id f cs)

take_child_killed :
    (id : ℕ) (cs : List (Call × Child))
    → all is_killed cs ≡ true
    → (all is_killed ((take_child id cs).1) ≡ true) × (length ((take_child id cs).1) ≤ length cs)
take_child_killed id [] h = (refl, omega arith)
take_child_killed id ((c, child) ∷ cs) h =
    let (first, others) = and_inv child.killed _ h in
    let (rest, count) = take_child_killed id cs others in
    elim (Bool-cases (c.id == id)) [
      | inl same ↦ rw same (others, omega arith)
      | inr other ↦ rw other (and_intro first rest, omega (arith, count))
    ]

-- the calls and the answers do not matter
IsStopped-same :
    {n : ℕ} {r : Runner} (q : Runner)
    → q.stopping ≡ r.stopping
    → q.children ≡ r.children
    → IsStopped n r
    → IsStopped n q
IsStopped-same q stopping children s = record {
  stopping = stopping ∙ s.stopping;
  killed = ap (all is_killed) children ∙ s.killed;
  count_le = omega (arith, ap length children, s.count_le);
}

run_call-IsStopped :
    (n : ℕ) (c : Call) (gone : Bool) (r : Runner) → IsStopped n r → IsStopped n (run_call c gone r)
unfolding run_call
run_call-IsStopped n c gone r s = IsStopped-same (run_call c gone r) (ground arith) (ground arith) s

go_on-IsStopped :
    (codec : Codec) (n : ℕ) (trusted gone : Bool) (found : Option Call) (r : Runner)
    → IsStopped n r
    → IsStopped n (go_on codec trusted gone found r)
go_on-IsStopped codec n trusted gone none r s = s
go_on-IsStopped codec n trusted gone (some c) r s =
    let stopping = s.stopping in
    IsStopped-same (go_on codec trusted gone (some c) r) (ground arith) (ground arith) s

settle-IsStopped :
    (codec : Codec) (n : ℕ) (exit_code : Option ℕ) (found : Option (Call × Child)) (r : Runner)
    → IsStopped n r
    → IsStopped n (settle codec exit_code found r)
settle-IsStopped codec n exit_code none r s = s
settle-IsStopped codec n exit_code (some (c, child)) r s = IsStopped-same _ refl refl s

step-IsStopped :
    (codec : Codec) (n : ℕ) (r : Runner) (e : Event) → IsStopped n r → IsStopped n (step codec r e)
unfolding step run_call on_trusted on_closed stop
step-IsStopped codec n r (called c gone) s = run_call-IsStopped n c gone r s
step-IsStopped codec n r (trust_checked id trusted gone) s =
    go_on-IsStopped codec n trusted gone _ _ (IsStopped-same _ refl refl s)
step-IsStopped codec n r (child_event id e) s = record {
  stopping = s.stopping;
  killed = update_killed id e r.children s.killed;
  count_le = omega (arith, length-update id (λ c. child_step c e) r.children, s.count_le);
}
step-IsStopped codec n r (closed id exit_code) s =
    let (killed, count) = take_child_killed id r.children s.killed in
    settle-IsStopped codec n exit_code _ _ (record {
      stopping = s.stopping;
      killed = killed;
      count_le = omega (arith, count, s.count_le);
    })
step-IsStopped codec n r stop_called s = record {
  stopping = refl;
  killed = end_child_killed r.children;
  count_le = omega (arith, length-end_child r.children, s.count_le);
}

run-IsStopped :
    (codec : Codec) (n : ℕ) (r : Runner) (es : List Event)
    → IsStopped n r
    → IsStopped n (run codec r es)
unfolding run
run-IsStopped codec n r [] s = s
run-IsStopped codec n r (e ∷ es) s =
    run-IsStopped codec n (step codec r e) es (step-IsStopped codec n r e s)

-- After `stop`, whatever happens, the runner starts no process any more, and each process that has not
-- closed was told to end.
pub stop-IsStopped :
    (codec : Codec) (r : Runner) (es : List Event)
    → IsStopped (length r.children) (run codec (stop r) es)
unfolding stop
stop-IsStopped codec r es = run-IsStopped codec (length r.children) (stop r) es (record {
  stopping = refl;
  killed = end_child_killed r.children;
  count_le = omega (arith, length-end_child r.children);
})
