-- ===== src/Runtime/Vm/Dispatch/Results.antt =====
-- The loop of `Engine::operator()` (src/runtime/vm.cpp) and its fuel.
use minuet_lang_mirror.Base.{
  ℕ, zero, suc, ◌+◌, ◌≡◌, sym, ap, ◌∙◌, inl, inr, arith, done, Bool-cases, >>=-eq-done,
}
use native.Mathlib.Nat.{add_comm}
use minuet_lang_mirror.Runtime.Vm.Engine.{Engine, Machine, ExecStatus}
use minuet_lang_mirror.Runtime.Vm.Dispatch.{step, running, run_loop, run}

-- With more fuel the loop gives the same result.
run_loop_more :
    (m : Machine) (n k : ℕ) (e e' : Engine)
    → run_loop m n e ≡ done e'
    → run_loop m (n + k) e ≡ done e'
unfolding run_loop
run_loop_more m zero k e e' ran = absurd (cc)
run_loop_more m (suc n) k e e' ran = rw more (elim (Bool-cases (running e)) [
  | inl going ↦
      let (mid, stepped, rest) = >>=-eq-done (step m e) (run_loop m n) (rw going at ran) in
      rw (going, stepped) (run_loop_more m n k mid e' rest)
  | inr stopped ↦ rw stopped (rw stopped at ran)
])
  where
    more : suc n + k ≡ suc (n + k)
    more = omega arith

-- The result of a run does not depend on its fuel: any two runs that end give the same status.
pub run_deterministic :
    (m : Machine) (n k : ℕ) (e : Engine) {a b : ExecStatus}
    → run m n e ≡ done a
    → run m k e ≡ done b
    → a ≡ b
unfolding run
run_deterministic m n k e {a} {b} ran ran' =
    let (e', looped, rest) = >>=-eq-done (run_loop m n e) _ ran in
    let (e'', looped', rest') = >>=-eq-done (run_loop m k e) _ ran' in
    let same : done e'' ≡ done e' =
      sym (run_loop_more m k n e e'' looped')
      ∙ ap (λ fuel. run_loop m fuel e) (add_comm k n)
      ∙ run_loop_more m n k e e' looped in
    cc
