-- ===== src/RunEnv/AppBalance.antt =====
-- What `CheckAppAcctOperate` of src/vm/vmrunevn.cpp lets pass.
use dacrs.Base.{
  ℕ, ◌+◌, ◌^◌, ◌<◌, ◌≡◌, sym, ap, ap₂, ◌∙◌, arith, Bool, true, false, some, List, [], ◌∷◌, leb, ltb,
  if◌then◌else◌, Bool-cases, Option-cases, inl, inr,
}
use mathlib.Core.Option.{some-injective, none-ne-some}
use dacrs.Base.Int.{ℤ, pos, ◌+ℤ◌, ◌-ℤ◌, int_laws, eq_of_parts}
use dacrs.Base.Checked.{CheckedAdd}
use dacrs.Base.Signed.{CheckedInt64}
use dacrs.AppAccount.Fund.{AppFundOperate, eq_ℤ}
use dacrs.Vm.Api.{word_of}
use dacrs.Vm.Run.{to_int64}
use dacrs.RunEnv.Check.{VmOperate, Views}
use dacrs.RunEnv.AppCheck.{
  AppOperates, adds, subtracts, tally, tally_ops, tally_all, is_own_minus, sys_contract_acct,
  check_app_acct_operate,
}

-- The amount that counts, over all operations of all accounts.
unfoldable pub sum_ops : (AppFundOperate → Bool) → List AppFundOperate → ℤ
sum_ops counts [] = pos 0
sum_ops counts (op ∷ ops) = (if counts op then op.money else pos 0) +ℤ sum_ops counts ops

unfoldable pub sum_all : (AppFundOperate → Bool) → AppOperates → ℤ
sum_all counts [] = pos 0
sum_all counts ((id, ops) ∷ rest) = sum_ops counts ops +ℤ sum_all counts rest

-- What a cast from uint64_t to int64_t takes off.
abbrev pub wrap : ℕ → ℤ
wrap n = if ltb n (2 ^ 63) then pos 0 else pos (2 ^ 64)

to_int64-wrap : (n : ℕ) → n < 2 ^ 64 → to_int64 n ≡ pos n -ℤ wrap n
unfolding ◌-ℤ◌
to_int64-wrap n small = ground arith

from_zero : (a b : ℕ) → a ≡ 0 + b → a ≡ b
from_zero a b e = omega arith

-- An operation that adds does not subtract.
adds_apart : (op : AppFundOperate) → adds op ≡ true → subtracts op ≡ false
adds_apart op h = ground arith

module _ (ints : CheckedInt64) where
  tally-sums :
      (op : AppFundOperate) (add minus : ℤ) (sums : ℤ × ℤ)
      → tally ints op (add, minus) ≡ some sums
      → (sums.0 ≡ add +ℤ (if adds op then op.money else pos 0))
        × (sums.1 ≡ minus +ℤ (if subtracts op then op.money else pos 0))
  unfolding tally
  tally-sums op add minus sums h = elim (Bool-cases (adds op)) [
    | inl a ↦ elim (Option-cases (ints.safe_add op.money add)) [
      | inl e ↦ absurd (none-ne-some _ (rw (tally, a, e) at h))
      | inr (s, e) ↦
          let same = some-injective _ _ (rw (tally, a, e) at h) in
          let exact = ints.add_exact op.money add s e in
          rw (a, adds_apart op a)
            (
              ap (λ r. r.0) (sym same) ∙ exact ∙ omega int_laws,
              ap (λ r. r.1) (sym same) ∙ omega int_laws,
            )
    ]
    | inr a ↦ elim (Bool-cases (subtracts op)) [
      | inl b ↦ elim (Option-cases (ints.safe_add op.money minus)) [
        | inl e ↦ absurd (none-ne-some _ (rw (tally, a, b, e) at h))
        | inr (s, e) ↦
            let same = some-injective _ _ (rw (tally, a, b, e) at h) in
            let exact = ints.add_exact op.money minus s e in
            rw (a, b)
              (
                ap (λ r. r.0) (sym same) ∙ omega int_laws,
                ap (λ r. r.1) (sym same) ∙ exact ∙ omega int_laws,
              )
      ]
      | inr b ↦
          let same = some-injective _ _ (rw (tally, a, b) at h) in
          rw (a, b)
            (ap (λ r. r.0) (sym same) ∙ omega int_laws, ap (λ r. r.1) (sym same) ∙ omega int_laws)
    ]
  ]

  tally_ops-sums :
      (ops : List AppFundOperate) (add minus : ℤ) (sums : ℤ × ℤ)
      → tally_ops ints ops (add, minus) ≡ some sums
      → (sums.0 ≡ add +ℤ sum_ops adds ops) × (sums.1 ≡ minus +ℤ sum_ops subtracts ops)
  unfolding tally_ops sum_ops
  tally_ops-sums [] add minus sums h =
      let same = some-injective _ _ h in
      (ap (λ s. s.0) (sym same) ∙ omega int_laws, ap (λ s. s.1) (sym same) ∙ omega int_laws)
  tally_ops-sums (op ∷ ops) add minus sums h = elim (Option-cases (tally ints op (add, minus))) [
    | inl e ↦ absurd (none-ne-some _ (rw (tally_ops, e) at h))
    | inr (next, e) ↦
        let (a, b) = tally-sums op add minus next e in
        let (p, q) = tally_ops-sums ops next.0 next.1 sums (rw (tally_ops, e) at h) in
        (p ∙ rw a (omega int_laws), q ∙ rw b (omega int_laws))
  ]

  tally_all-sums :
      (all : AppOperates) (add minus : ℤ) (sums : ℤ × ℤ)
      → tally_all ints all (add, minus) ≡ some sums
      → (sums.0 ≡ add +ℤ sum_all adds all) × (sums.1 ≡ minus +ℤ sum_all subtracts all)
  unfolding tally_all sum_all
  tally_all-sums [] add minus sums h =
      let same = some-injective _ _ h in
      (ap (λ s. s.0) (sym same) ∙ omega int_laws, ap (λ s. s.1) (sym same) ∙ omega int_laws)
  tally_all-sums ((id, ops) ∷ rest) add minus sums h =
      elim (Option-cases (tally_ops ints ops (add, minus))) [
        | inl e ↦ absurd (none-ne-some _ (rw (tally_all, e) at h))
        | inr (next, e) ↦
            let (a, b) = tally_ops-sums ops add minus next e in
            let (p, q) = tally_all-sums rest next.0 next.1 sums (rw (tally_all, e) at h) in
            (p ∙ rw a (omega int_laws), q ∙ rw b (omega int_laws))
      ]

module _ (views : Views) (checked : CheckedAdd) (des_user_id : List ℕ) where
  -- What the outputs take from the account of the contract.
  unfoldable pub sum_own : List VmOperate → ℕ
  sum_own [] = 0
  sum_own (op ∷ ops) =
      (if is_own_minus views checked des_user_id op then word_of op.money else 0) + sum_own ops

  safe_add-some : (a b r : ℕ) → checked.safe_add a b ≡ some r → (r ≡ a + b) × (r < 2 ^ 64)
  safe_add-some a b r h = ground (arith, checked.fits a b, checked.overflows a b)

  sys_contract_acct-sum :
      (ops : List VmOperate) (sum sys : ℕ)
      → sum < 2 ^ 64
      → sys_contract_acct views checked des_user_id ops sum ≡ some sys
      → (sys ≡ sum + sum_own ops) × (sys < 2 ^ 64)
  unfolding sys_contract_acct sum_own
  sys_contract_acct-sum [] sum sys small h =
      let same = some-injective _ _ h in (omega arith, omega arith)
  sys_contract_acct-sum (op ∷ ops) sum sys small h =
      elim (Bool-cases (is_own_minus views checked des_user_id op)) [
        | inr a ↦
            let rest = sys_contract_acct-sum ops sum sys small (rw (sys_contract_acct, a) at h) in
            rw a (omega (arith, rest.0), rest.1)
        | inl a ↦ elim (Bool-cases (leb (2 ^ 63) (word_of op.money))) [
          | inl b ↦ absurd (none-ne-some _ (rw (sys_contract_acct, a, b) at h))
          | inr b ↦ elim (Option-cases (checked.safe_add (word_of op.money) sum)) [
            | inl e ↦ absurd (none-ne-some _ (rw (sys_contract_acct, a, b, e) at h))
            | inr (next, e) ↦
                let (exact, low) = safe_add-some (word_of op.money) sum next e in
                let (p, q) =
                  sys_contract_acct-sum ops next sys low (rw (sys_contract_acct, a, b, e) at h) in
                rw a (omega arith, q)
          ]
        ]
      ]

  -- The money that the operations add to the accounts of the contract, less what they take, against
  -- the value of the transaction less what the outputs take from the contract's own account: the
  -- same, but for the casts to int64_t.
  pub record AppBalanced (all : AppOperates) (output : List VmOperate) (tx_values : ℕ)
      : Type 0 where
    pub balance :
        sum_all adds all -ℤ sum_all subtracts all
        ≡ pos tx_values -ℤ pos (sum_own output) +ℤ (wrap (sum_own output) -ℤ wrap tx_values)
    pub bounded : sum_own output < 2 ^ 64

  module _ (ints : CheckedInt64) where
    difference :
        (a b c d r s : ℤ)
        → ints.safe_subtract a b ≡ some r
        → ints.safe_subtract c d ≡ some s
        → eq_ℤ r s ≡ true
        → a -ℤ b ≡ c -ℤ d
    difference a b c d r s h k e =
        sym (ints.subtract_exact a b r h)
        ∙ eq_of_parts r s (ground arith)
        ∙ ints.subtract_exact c d s k

    -- If `CheckAppAcctOperate` accepts a transaction whose value fits an uint64_t: as integers, what
    -- the operations add to the accounts of the contract, less what they take, is the value of the
    -- transaction less what the outputs take from the contract's own account, with 2 ^ 64 more where
    -- the outputs take 2 ^ 63 or more, and 2 ^ 64 less where the value is 2 ^ 63 or more. What the
    -- outputs take fits an uint64_t.
    pub check_app_acct_operate-AppBalanced :
        (all : AppOperates) (output : List VmOperate) (tx_values : ℕ)
        → tx_values < 2 ^ 64
        → check_app_acct_operate views checked des_user_id ints all output tx_values ≡ true
        → AppBalanced all output tx_values
    unfolding check_app_acct_operate
    check_app_acct_operate-AppBalanced all output tx_values fits h =
        elim (Option-cases (tally_all ints all (pos 0, pos 0))) [
          | inl e ↦ absurd (cc (rw (check_app_acct_operate, e) at h))
          | inr (sums, e) ↦
              elim (Option-cases (sys_contract_acct views checked des_user_id output 0)) [
                | inl f ↦ absurd (cc (rw (check_app_acct_operate, e, f) at h))
                | inr (sys, f) ↦ elim (Option-cases (ints.safe_subtract sums.0 sums.1)) [
                  | inl g ↦ absurd (cc (rw (check_app_acct_operate, e, f, g) at h))
                  | inr (r, g) ↦
                      elim (Option-cases (ints.safe_subtract (to_int64 tx_values) (to_int64 sys))) [
                        | inl k ↦ absurd (cc (rw (check_app_acct_operate, e, f, g, k) at h))
                        | inr (s, k) ↦
                            let (p, q) = tally_all-sums ints all (pos 0) (pos 0) sums e in
                            let (u, w) = sys_contract_acct-sum output 0 sys (omega arith) f in
                            let moved =
                              difference sums.0 sums.1 (to_int64 tx_values) (to_int64 sys) r s g k
                                (rw (check_app_acct_operate, e, f, g, k) at h) in
                            record {
                              balance =
                                  ap₂ (λ x y. x -ℤ y) (sym (p ∙ omega int_laws))
                                    (sym (q ∙ omega int_laws))
                                  ∙ moved
                                  ∙ ap (λ n. to_int64 tx_values -ℤ to_int64 n)
                                      (from_zero sys (sum_own output) u)
                                  ∙ rw
                                      (
                                        to_int64-wrap tx_values fits,
                                        to_int64-wrap (sum_own output) (omega (arith, u, w)),
                                      )
                                      (omega int_laws);
                              bounded = omega (arith, u, w);
                            }
                      ]
                ]
              ]
        ]
