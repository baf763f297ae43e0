-- ===== src/Vm/Run/Limits.antt =====
-- The step limit of `CVm8051::run`: what it promises if calls report steps.
use dacrs.Base.{
  ℕ, zero, suc, ◌^◌, ◌≤◌, ◌<◌, ◌≡◌, ◌⊎◌, inl, inr, refl, arith, true, false, Option, none, some,
  List, ◌==◌, ==_ne, ==_iff, Bool-cases,
}
use dacrs.Base.Int.{ℤ, pos, ◌+ℤ◌, ◌-ℤ◌, ◌≤ℤ◌, leb_ℤ, int_laws}
use dacrs.Base.Words.{Mem}
use dacrs.Vm.State.{Vm, get_opcode}
use dacrs.Vm.Step.{step_run}
use dacrs.Vm.Api.{Status, failed, done, aborted, RetDefine}
use dacrs.Vm.Run.{
  Verdict, Round, next, stop, over_limit, max_block_run_step, after_results, after_status,
  after_call, limit_check, run_round, run_loop, run, method_id,
}

-- Below the limits.
pub over_limit-false :
    (maxstep : ℕ) (step : ℤ)
    → maxstep < 2 ^ 63
    → over_limit maxstep step ≡ false
    → (step +ℤ pos 1 ≤ℤ pos max_block_run_step) × (step +ℤ pos 1 ≤ℤ pos maxstep)
unfolding over_limit ◌+ℤ◌
over_limit-false maxstep step h e = ground arith

one_or_more : (n : ℤ) → leb_ℤ (pos 1) n ≡ true → pos 1 ≤ℤ n
one_or_more n e = ground arith

module _ {E : Type 0} (call : ℕ → Mem → E → Option (RetDefine × E)) where
  pub limit_check-next :
      (maxstep : ℕ) (vm : Vm) (step : ℤ) (env : E) {vm' : Vm} {step' : ℤ} {env' : E}
      → limit_check call maxstep vm step env ≡ next vm' step' env'
      → (step' ≡ step) × (over_limit maxstep step' ≡ false)
  unfolding limit_check
  limit_check-next maxstep vm step env e = ground arith

  after_results-next :
      (maxstep : ℕ) (vm : Vm) (step : ℤ) (env : E) (m : Option Mem) {vm' : Vm} {step' : ℤ}
      {env' : E}
      → after_results call maxstep vm step env m ≡ next vm' step' env'
      → (step' ≡ step) × (over_limit maxstep step' ≡ false)
  unfolding after_results
  after_results-next maxstep vm step env none e = cc
  after_results-next maxstep vm step env (some m) e = limit_check-next maxstep _ step env e

  after_status-next :
      (status : Status) (maxstep : ℕ) (vm : Vm) (step : ℤ) (results : List (List ℕ)) (env : E)
      {vm' : Vm} {step' : ℤ} {env' : E}
      → after_status call status maxstep vm step results env ≡ next vm' step' env'
      → (step' ≡ step) × (over_limit maxstep step' ≡ false)
  unfolding after_status
  after_status-next done maxstep vm step results env e = after_results-next maxstep vm step env _ e
  after_status-next aborted maxstep vm step results env e = cc
  after_status-next failed maxstep vm step results env e = limit_check-next maxstep vm step env e

  -- A call that the loop goes on behind, and the step count that it leaves.
  abbrev pub Called : Option (RetDefine × E) → ℤ → ℤ → Type 0
  Called answer step step' =
      (r : RetDefine × E) × (answer ≡ some r) × (step' ≡ step +ℤ (r.0.step -ℤ pos 1))

  after_call-next :
      (maxstep : ℕ) (vm : Vm) (step : ℤ) (answer : Option (RetDefine × E)) {vm' : Vm} {step' : ℤ}
      {env' : E}
      → after_call call maxstep vm step answer ≡ next vm' step' env'
      → Called answer step step' × (over_limit maxstep step' ≡ false)
  unfolding after_call
  after_call-next maxstep vm step none e = cc
  after_call-next maxstep vm step (some r) e =
      let (counted, below) = after_status-next r.0.status maxstep _ _ r.0.results r.1 e in
      ((r, refl, counted), below)

  leaves : {v : Verdict} {vm : Vm} {step : ℤ} {env : E} → ¬ (stop v ≡ next vm step env)
  leaves e = cc

  -- What the host answers to the call that a round may end in.
  unfoldable pub answer : Vm → E → Option (RetDefine × E)
  answer vm env = let vm1 = step_run (get_opcode vm) vm in call (method_id vm1) vm1.ex_ram env

  -- A round that goes on has stayed below the limits, and counts one step, or is a call and counts
  -- what it costs.
  pub run_round-next :
      (maxstep : ℕ) (vm : Vm) (step : ℤ) (env : E) {vm' : Vm} {step' : ℤ} {env' : E}
      → run_round call maxstep vm step env ≡ next vm' step' env'
      → (over_limit maxstep step' ≡ false)
        × ((step' ≡ step +ℤ pos 1)
            ⊎ (Called (answer vm env) (step +ℤ pos 1) step'
                × ((step_run (get_opcode vm) vm).pc ≡ 0x0012)))
  unfolding run_round answer
  run_round-next maxstep vm step env e =
      let vm1 = step_run (get_opcode vm) vm in
      let step1 = step +ℤ pos 1 in
      elim (Bool-cases (vm1.pc == 0x0012)) [
        | inl p ↦
            let (asked, below) =
              after_call-next maxstep vm1 step1 (answer vm env) (rw (run_round, p) at e) in
            (below, inr (asked, (==_iff vm1.pc 0x0012).0 p))
        | inr p ↦ elim (Bool-cases (vm1.pc == 0x0008)) [
          | inl q ↦ absurd (leaves (rw (run_round, p, q) at e))
          | inr q ↦
              let (counted, below) =
                limit_check-next maxstep vm1 step1 env (rw (run_round, p, q) at e) in
              (below, inl counted)
        ]
      ]

  -- A state that the loop comes to.
  pub data Reaches (maxstep : ℕ) : Vm → ℤ → E → Vm → ℤ → E → Type 0 where
    here : {vm : Vm} {step : ℤ} {env : E} → Reaches maxstep vm step env vm step env
    onward :
        {vm vm' vm'' : Vm} {step step' step'' : ℤ} {env env' env'' : E}
        → run_round call maxstep vm step env ≡ next vm' step' env'
        → Reaches maxstep vm' step' env' vm'' step'' env''
        → Reaches maxstep vm step env vm'' step'' env''

  -- A round that the loop comes to, in which the contract calls the host, and the host reports less
  -- than one step.
  pub record FreeCall (maxstep : ℕ) (vm : Vm) (step : ℤ) (env : E) : Type 0 where
    pub vm' : Vm
    pub step' : ℤ
    pub env' : E
    pub reached : Reaches maxstep vm step env vm' step' env'
    pub calls : (step_run (get_opcode vm') vm').pc ≡ 0x0012
    pub ret : RetDefine × E
    pub answered : answer vm' env' ≡ some ret
    pub free : ret.0.step ≤ℤ pos 0

  -- A round that goes on has counted a step, or is a call that reports less than one.
  run_round-progress :
      (maxstep : ℕ) (vm : Vm) (step : ℤ) (env : E) {vm' : Vm} {step' : ℤ} {env' : E}
      → run_round call maxstep vm step env ≡ next vm' step' env'
      → (step +ℤ pos 1 ≤ℤ step') ⊎ FreeCall maxstep vm step env
  run_round-progress maxstep vm step env e = elim (run_round-next maxstep vm step env e).1 [
    | inl q ↦ inl (rw q (omega int_laws))
    | inr (asked, calls) ↦ elim (Bool-cases (leb_ℤ (pos 1) asked.0.0.step)) [
      | inl c ↦ inl (rw asked.2 (omega (int_laws, one_or_more asked.0.0.step c)))
      | inr c ↦ inr (record {
        vm' = vm;
        step' = step;
        env' = env;
        reached = here;
        calls = calls;
        ret = asked.0;
        answered = asked.1;
        free = ground arith;
      })
    ]
  ]

  -- A free call that comes after a round.
  later :
      (maxstep : ℕ) (vm w : Vm) (step s : ℤ) (env env' : E)
      → run_round call maxstep vm step env ≡ next w s env'
      → FreeCall maxstep w s env'
      → FreeCall maxstep vm step env
  later maxstep vm w step s env env' e call' = record {
    vm' = call'.vm';
    step' = call'.step';
    env' = call'.env';
    reached = onward e call'.reached;
    calls = call'.calls;
    ret = call'.ret;
    answered = call'.answered;
    free = call'.free;
  }

  -- The loop returns, or comes to a free call.
  abbrev pub Ends : ℕ → ℕ → Vm → ℤ → E → Type 0
  Ends fuel maxstep vm step env =
      ((v : Verdict) × (run_loop call fuel maxstep vm step env ≡ some v))
      ⊎ FreeCall maxstep vm step env

  -- With a limit below 2 ^ 63 the loop ends within the steps that are left.
  run_loop-Ends :
      (fuel maxstep : ℕ) (vm : Vm) (step : ℤ) (env : E)
      → maxstep < 2 ^ 63
      → pos maxstep ≤ℤ step +ℤ pos fuel
      → 0 < fuel
      → Ends fuel maxstep vm step env
  unfolding run_loop
  run_loop-Ends zero maxstep vm step env h le lt = elim lt [ ]
  run_loop-Ends (suc fuel) maxstep vm step env h le lt =
      round_cases (run_round call maxstep vm step env) refl (run_loop-Ends fuel maxstep)
    where
      round_cases :
          (r : Round E)
          → run_round call maxstep vm step env ≡ r
          → ((w : Vm) (s : ℤ) (env' : E)
              → maxstep < 2 ^ 63
              → pos maxstep ≤ℤ s +ℤ pos fuel
              → 0 < fuel
              → Ends fuel maxstep w s env')
          → Ends (suc fuel) maxstep vm step env
      round_cases (stop v) e rec = inl (v, rw (e, run_loop) refl)
      round_cases (next w s env') e rec = elim (run_round-progress maxstep vm step env e) [
        | inr freed ↦ inr freed
        | inl grown ↦
            let below = over_limit-false maxstep s h (run_round-next maxstep vm step env e).0 in
            elim (rec w s env' h (omega (int_laws, below, grown))
              (omega (int_laws, below, grown))) [
                | inl (v, q) ↦ inl (v, rw (e, run_loop) q)
                | inr freed ↦ inr (later maxstep vm w step s env env' e freed)
              ]
      ]

  -- A run with a positive limit below 2 ^ 63 comes to an end within that many rounds, or it comes to
  -- a round in which the contract calls the host and the host reports less than one step.
  pub run-Ends :
      (fuel maxstep : ℕ) (vm : Vm) (env : E)
      → 0 < maxstep
      → maxstep < 2 ^ 63
      → maxstep ≤ fuel
      → ((v : Verdict) × (run call fuel maxstep vm (some env) ≡ some v))
        ⊎ FreeCall maxstep vm (pos 0) env
  unfolding run
  run-Ends fuel maxstep vm env some_steps h le =
      rw (==_ne maxstep 0 (omega arith))
        (run_loop-Ends fuel maxstep vm (pos 0) env h (omega int_laws) (omega arith))
