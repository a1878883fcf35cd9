-- ===== src/Adapters/Command/Failures.antt =====
-- src/adapters/command-runner.ts: which path is taken, and what an error is called.
use agentv.Base.{
  ◌≡◌, refl, ap, subst, ◌↔◌, inl, inr, String, List, [], ◌∷◌, ◌++◌, true, false, ◌||◌, some, arith,
  any, Bool-cases,
}
use mathlib.Core.Option.{some-injective}
use agentv.Errors.{tool_timeout, permission_denied, output_too_large}
use agentv.Adapters.Command.{
  Platform, ExecError, has_name, timed_out, overflowed, says_denied, command_error,
  first_executable,
}

-- A failed command is reported as timed out exactly if it was killed, timed out or was aborted; as too
-- large only if its output was, and as denied only if the error says so.
pub command_error_codes :
    (p : Platform) (executable stderr : String) (e : ExecError)
    → let c = (command_error p executable stderr e).tool_code in
      ((c ≡ tool_timeout) ↔ (timed_out e ≡ true))
      × ((c ≡ output_too_large → overflowed e ≡ true)
          × ((c ≡ permission_denied)
              → (has_name e.code "EACCES" || has_name e.code "EPERM" || says_denied p stderr e)
                ≡ true))
unfolding command_error
command_error_codes p executable stderr e = ground arith

-- The path that is taken is executable, and none in front of it is; if none is taken, none is.
pub first_executable_first :
    (p : Platform) (paths : List String) (path : String)
    → first_executable p paths ≡ some path
    → (before : List String) × (after : List String) × (paths ≡ before ++ path ∷ after)
      × (any p.is_executable before ≡ false)
      × (p.is_executable path ≡ true)
unfolding first_executable
first_executable_first p [] path h = cc
first_executable_first p (q ∷ qs) path h = elim (Bool-cases (p.is_executable q)) [
  | inl here ↦
      let same = some-injective q path (rw (here, first_executable) at h) in
      ([], qs, ap (λ x. x ∷ qs) same, refl, subst (λ x. p.is_executable x ≡ true) same here)
  | inr passed ↦
      let (before, after, split, none_before, taken) =
        first_executable_first p qs path (rw (passed, first_executable) at h) in
      (q ∷ before, after, ap (◌∷◌ q) split, rw passed none_before, taken)
]
