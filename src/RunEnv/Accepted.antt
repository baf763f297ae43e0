-- ===== src/RunEnv/Accepted.antt =====
-- What `CheckOperate` of src/vm/vmrunevn.cpp lets pass.
use dacrs.Base.{
  ℕ, ◌+◌, ◌^◌, ◌<◌, ◌≤◌, ◌≡◌, ◌⊎◌, inl, inr, sym, ap, arith, true, some, List, [], ◌∷◌, ltb, ◌==◌,
  if◌then◌else◌, length, All, Bool-cases, Option-cases,
}
use mathlib.Core.Option.{some-injective, none-ne-some}
use dacrs.Base.Checked.{CheckedAdd}
use dacrs.Vm.Api.{word_of}
use dacrs.RunEnv.Check.{
  VmOperate, Views, em_regid, em_base_58_addr, em_add_free, em_minus_free, max_output_count, reg_eq,
  get_account_id, count_money, id_passes, check_one, check_loop, check_operate,
}

-- The amount that an output adds, and that it takes.
abbrev pub added : VmOperate → ℕ
added op = if op.opeator_type == em_add_free then word_of op.money else 0

abbrev pub taken : VmOperate → ℕ
taken op = if op.opeator_type == em_minus_free then word_of op.money else 0

unfoldable pub sum_over : (VmOperate → ℕ) → List VmOperate → ℕ
sum_over amount [] = 0
sum_over amount (op ∷ ops) = amount op + sum_over amount ops

module _ (views : Views) (checked : CheckedAdd) (des_user_id : List ℕ) where
  -- An output adds money, or takes it from the account of the contract itself.
  pub record IsAllowed (op : VmOperate) : Type 0 where
    pub id_type : (op.nacc_type ≡ em_regid) ⊎ (op.nacc_type ≡ em_base_58_addr)
    pub own :
        (op.opeator_type ≡ em_add_free)
        ⊎ ((op.opeator_type ≡ em_minus_free)
            × (length (get_account_id views op) ≡ 6)
            × (views.have_script (get_account_id views op) ≡ true)
            × (reg_eq (get_account_id views op) des_user_id ≡ true))

  check_one-IsAllowed :
      (op : VmOperate) (add minus : ℕ) (sums : ℕ × ℕ)
      → check_one views checked des_user_id op (add, minus) ≡ some sums
      → IsAllowed op
  unfolding check_one count_money id_passes
  check_one-IsAllowed op add minus sums h = record { id_type = ground arith; own = ground arith }

  check_one-sums :
      (op : VmOperate) (add minus : ℕ) (sums : ℕ × ℕ)
      → check_one views checked des_user_id op (add, minus) ≡ some sums
      → add < 2 ^ 64
      → minus < 2 ^ 64
      → (sums.0 ≡ add + added op)
        × (sums.1 ≡ minus + taken op)
        × (sums.0 < 2 ^ 64)
        × (sums.1 < 2 ^ 64)
  unfolding check_one count_money
  check_one-sums op add minus sums h small low = ground (
    arith,
    checked.fits add (word_of op.money),
    checked.overflows add (word_of op.money),
    checked.fits minus (word_of op.money),
    checked.overflows minus (word_of op.money),
  )

  check_loop-sums :
      (ops : List VmOperate) (add minus : ℕ) (sums : ℕ × ℕ)
      → check_loop views checked des_user_id ops (add, minus) ≡ some sums
      → add < 2 ^ 64
      → minus < 2 ^ 64
      → All IsAllowed ops
        × (sums.0 ≡ add + sum_over added ops)
        × (sums.1 ≡ minus + sum_over taken ops)
        × (sums.0 < 2 ^ 64)
  unfolding check_loop sum_over
  check_loop-sums [] add minus sums h small low =
      let same = some-injective _ _ h in
      (
        tt,
        omega (arith, sym (ap (λ s. s.0) same)),
        omega (arith, sym (ap (λ s. s.1) same)),
        omega (arith, ap (λ s. s.0) same),
      )
  check_loop-sums (op ∷ ops) add minus sums h small low =
      elim (Option-cases (check_one views checked des_user_id op (add, minus))) [
        | inl e ↦ absurd (none-ne-some _ (rw (check_loop, e) at h))
        | inr (next, e) ↦
            let (a, b, c, d) = check_one-sums op add minus next e small low in
            let (all, p, q, r) =
              check_loop-sums ops next.0 next.1 sums (rw (check_loop, e) at h) c d in
            ((check_one-IsAllowed op add minus next e, all), omega arith, omega arith, r)
      ]

  -- What an accepted list of outputs is like.
  pub record Accepted (ops : List VmOperate) : Type 0 where
    pub count : length ops ≤ max_output_count
    pub allowed : All IsAllowed ops
    pub balance : sum_over added ops ≡ sum_over taken ops
    pub bounded : sum_over added ops < 2 ^ 64

  -- Outputs that the check accepts are at most 100, each has one of the two types of ids and either
  -- adds money or takes it from the account of the contract itself, which is a registered one, and
  -- what they add in all is what they take, and fits an uint64_t.
  pub check_operate-Accepted :
      (ops : List VmOperate) → check_operate views checked des_user_id ops ≡ true → Accepted ops
  unfolding check_operate
  check_operate-Accepted ops h = elim (Bool-cases (ltb max_output_count (length ops))) [
    | inl e ↦ ground arith
    | inr e ↦ elim (Option-cases (check_loop views checked des_user_id ops (0, 0))) [
      | inl f ↦ ground arith
      | inr (sums, f) ↦
          let equal = rw (check_operate, e, f) at h in
          let (all, p, q, r) = check_loop-sums ops 0 0 sums f (omega arith) (omega arith) in
          record {
            count = ground arith;
            allowed = all;
            balance = ground arith;
            bounded = omega arith;
          }
    ]
  ]
