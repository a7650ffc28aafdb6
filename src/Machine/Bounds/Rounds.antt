-- ===== src/Machine/Bounds/Rounds.antt =====
-- reference/shen-gc/zincvm.c: the instruction limit of `vm_exec_env`.
use fx_ui.Base.{
  ℕ, zero, suc, ◌+◌, ◌^◌, ◌≤◌, ◌<◌, ◌≡◌, refl, false, Option, some, arith, leb, if-cases,
  Bool-cases, inl, inr,
}
use fx_ui.Value.{Values, Code}
use fx_ui.Machine.State.{State, Host, Halt, Outcome, done}
use fx_ui.Machine.Loop.{execute, int_end, next, run, start, vm_exec_env}

-- The loop was left.
abbrev pub IsFinal : {W : Type 0} → Outcome W → Type 0
IsFinal (Outcome.running s) = ⊥
IsFinal _ = Unit

module _ {W : Type 0} (h : Host W) (limit : ℕ) where
  next_total :
      (rest : State W → Option (Outcome W))
      → ((s : State W) → (o : Outcome W) × (rest s ≡ some o) × IsFinal o)
      → (o : Outcome W) → (o' : Outcome W) × (next rest o ≡ some o') × IsFinal o'
  next_total rest ih (Outcome.running s) = ih s
  next_total rest ih (Outcome.done r v w) = (_, refl, tt)
  next_total rest ih (Outcome.thrown msg w) = (_, refl, tt)
  next_total rest ih (Outcome.uncaught msg) = (_, refl, tt)
  next_total rest ih Outcome.exited = (_, refl, tt)

  run_total :
      (fuel count : ℕ) (s : State W)
      → count < limit
      → limit ≤ fuel + count
      → (o : Outcome W) × (run h limit fuel count s ≡ some o) × IsFinal o
  unfolding run
  run_total zero count s a b = absurd (omega arith)
  run_total (suc fuel) count s a b =
      if-cases (λ r. (o : Outcome W) × (r ≡ some o) × IsFinal o) (leb int_end (count + 1)) _ _
        (λ e. (Outcome.exited, refl, tt))
        (λ e.
          if-cases (λ r. (o : Outcome W) × (r ≡ some o) × IsFinal o) (leb limit (count + 1)) _ _
            (λ f. (done Halt.limit_hit s.acc s.world, refl, tt))
            (λ f.
              next_total (run h limit fuel (count + 1))
                (λ t. run_total fuel (count + 1) t (ground arith) (omega arith)) (execute h s)))

-- Whatever code it runs, the loop of `vm_exec_env` is left within the rounds of its instruction
-- limit, if the limit is positive and an `int`, so that its counter does not overflow.
pub vm_exec_env_total :
    {W : Type 0} (h : Host W) (limit : ℕ) (code : Code) (env : Values) (w : W)
    → 1 ≤ limit
    → limit < 2 ^ 31
    → (o : Outcome W) × (vm_exec_env h limit limit code env w ≡ some o) × IsFinal o
unfolding vm_exec_env
vm_exec_env_total h limit code env w some_round sane =
    run_total h limit limit 0 (start code env w) (omega arith) (omega arith)

next_cong :
    {W : Type 0} (f g : State W → Option (Outcome W)) (o : Outcome W)
    → ((s : State W) → f s ≡ g s)
    → next f o ≡ next g o
next_cong f g (Outcome.running s) e = e s
next_cong f g (Outcome.done r v w) e = refl
next_cong f g (Outcome.thrown msg w) e = refl
next_cong f g (Outcome.uncaught msg) e = refl
next_cong f g Outcome.exited e = refl

module _ {W : Type 0} (h : Host W) (a b : ℕ) (la : 2 ^ 31 ≤ a) (lb : 2 ^ 31 ≤ b) where
  run_limits : (fuel count : ℕ) (s : State W) → run h a fuel count s ≡ run h b fuel count s
  unfolding run
  run_limits zero count s = refl
  run_limits (suc fuel) count s = elim (Bool-cases (leb int_end (count + 1))) [
    | inl e ↦ rw e refl
    | inr e ↦
        let low_a : leb a (count + 1) ≡ false = ground arith in
        let low_b : leb b (count + 1) ≡ false = ground arith in
        rw (e, low_a, low_b)
          (next_cong (run h a fuel (count + 1)) (run h b fuel (count + 1)) (execute h s)
            (λ t. run_limits fuel (count + 1) t))
  ]

-- An instruction limit from 2^31 on is as good as none, the default of 5000000000 among them: any
-- two such limits give the same run, on every number of rounds, since the counter is an `int` and
-- overflows before it reaches them.
pub vm_exec_env-limit :
    {W : Type 0} (h : Host W) (a b fuel : ℕ) (code : Code) (env : Values) (w : W)
    → 2 ^ 31 ≤ a
    → 2 ^ 31 ≤ b
    → vm_exec_env h a fuel code env w ≡ vm_exec_env h b fuel code env w
unfolding vm_exec_env
vm_exec_env-limit h a b fuel code env w la lb = run_limits h a b la lb fuel 0 (start code env w)
