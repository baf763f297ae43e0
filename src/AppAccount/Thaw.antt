-- ===== src/AppAccount/Thaw.antt =====
-- Frozen funds whose height has come are freed (src/vm/appaccount.cpp: `AutoMergeFreezeToFree`).
use dacrs.Base.{
  ℕ, ◌+◌, ◌^◌, ◌≤◌, ◌<◌, Bool, true, false, none, some, List, [], ◌∷◌, ◌≡◌, refl, sym, ap, ◌∙◌,
  arith, if◌then◌else◌, ltb, Bool-cases, Option-cases, inl, inr, All,
}
use dacrs.Base.Int.{ℤ, leb_ℤ}
use dacrs.Base.Checked.{CheckedAdd}
use dacrs.AppAccount.Fund.{AppCFund, find_if, same_key}
use dacrs.AppAccount.Keys.{Unique, same_key-height}
use dacrs.AppAccount.Account.{
  AppUserAccout, get_app_cfund, free_due, keep_frozen, merge_due, sum_values, height_or_time,
  auto_merge_freeze_to_free,
}
use dacrs.AppAccount.Branches.{Holds}
use dacrs.AppAccount.Money.{total_money}
use dacrs.AppAccount.Validity.{IsValid, Keeps, IsWord}

-- The money in the funds that are due at a height.
pub due_sum : ℤ → List AppCFund → ℕ
due_sum limit [] = 0
due_sum limit (f ∷ fs) = (if leb_ℤ f.height limit then f.value else 0) + due_sum limit fs

sum_values-keep_frozen :
    (limit : ℤ) (fs : List AppCFund)
    → sum_values (keep_frozen limit fs) + due_sum limit fs ≡ sum_values fs
unfolding sum_values keep_frozen due_sum
sum_values-keep_frozen limit [] = omega arith
sum_values-keep_frozen limit (f ∷ fs) = elim (Bool-cases (leb_ℤ f.height limit)) [
  | inl e ↦ rw e (omega (arith, sum_values-keep_frozen limit fs))
  | inr e ↦ rw e (omega (arith, sum_values-keep_frozen limit fs))
]

-- What is due is found no more, and all else as before.
find_if-keep_frozen :
    (limit : ℤ) (t : List ℕ) (h : ℤ) (fs : List AppCFund)
    → find_if (same_key t h) (keep_frozen limit fs)
      ≡ (if leb_ℤ h limit then none else find_if (same_key t h) fs)
unfolding find_if keep_frozen
find_if-keep_frozen limit t h [] = ground arith
find_if-keep_frozen limit t h (f ∷ fs) = elim (Bool-cases (same_key t h f)) [
  | inl e ↦ elim (Bool-cases (leb_ℤ f.height limit)) [
    | inl due ↦
        let due' = sym (ap (λ k. leb_ℤ k limit) (same_key-height t h f e)) ∙ due in
        rw (due, due') (find_if-keep_frozen limit t h fs ∙ rw due' refl)
    | inr due ↦
        let due' = sym (ap (λ k. leb_ℤ k limit) (same_key-height t h f e)) ∙ due in
        rw (due, due', e) refl
  ]
  | inr e ↦ elim (Bool-cases (leb_ℤ f.height limit)) [
    | inl due ↦ rw (due, e) (find_if-keep_frozen limit t h fs)
    | inr due ↦ rw (due, e) (find_if-keep_frozen limit t h fs)
  ]
]

module _ (checked : CheckedAdd) (limit : ℤ) where
  free_due-fits :
      (fs : List AppCFund) (values : ℕ)
      → values + due_sum limit fs < 2 ^ 64
      → free_due checked limit fs values ≡ (true, values + due_sum limit fs)
  unfolding free_due due_sum
  free_due-fits [] values small = ap (λ n. (true, n)) (omega arith)
  free_due-fits (f ∷ fs) values small = elim (Bool-cases (leb_ℤ f.height limit)) [
    | inl e ↦
        let small' = rw e at small in
        rw (e, checked.fits values f.value (omega arith))
          (free_due-fits fs (values + f.value) (omega arith) ∙ ap (λ n. (true, n)) (omega arith))
    | inr e ↦
        let small' = rw e at small in
        rw e (free_due-fits fs values (omega arith) ∙ ap (λ n. (true, n)) (omega arith))
  ]

  free_due-overflows :
      (fs : List AppCFund) (values : ℕ)
      → values < 2 ^ 64
      → 2 ^ 64 ≤ values + due_sum limit fs
      → (sum : ℕ) × (free_due checked limit fs values ≡ (false, sum))
        × (values ≤ sum)
        × (sum < 2 ^ 64)
  unfolding free_due due_sum
  free_due-overflows [] values small big = absurd (omega arith)
  free_due-overflows (f ∷ fs) values small big = elim (Bool-cases (leb_ℤ f.height limit)) [
    | inr e ↦ let big' = rw e at big in rw e (free_due-overflows fs values small (omega arith))
    | inl e ↦ elim (Bool-cases (ltb (values + f.value) (2 ^ 64))) [
      | inr b ↦
          rw (e, checked.overflows values f.value (ground arith)) (values, refl, omega arith, small)
      | inl b ↦
          let big' = rw e at big in
          let (sum, eq, low, high) =
            free_due-overflows fs (values + f.value) (ground arith) (omega arith) in
          rw (e, checked.fits values f.value (ground arith)) (sum, eq, omega arith, high)
    ]
  ]

-- What the thawing at a height leaves, with its result.
pub data Thawed (limit : ℤ) (acc : AppUserAccout) : Bool → AppUserAccout → Type 0 where
  freed :
      (acc' : AppUserAccout)
      → acc'.values ≡ acc.values + due_sum limit acc.freezed_fund
      → total_money acc' ≡ total_money acc
      → ((t : List ℕ) (h : ℤ)
          → get_app_cfund t h acc' ≡ (if leb_ℤ h limit then none else get_app_cfund t h acc))
      → Thawed limit acc true acc'
  half_freed :
      (sum : ℕ)
      → 2 ^ 64 ≤ acc.values + due_sum limit acc.freezed_fund
      → acc.values ≤ sum
      → Thawed limit acc false (record acc { values = sum })

abbrev HoldsOf : (Bool → AppUserAccout → Type 0) → Bool × AppUserAccout → Type 0
HoldsOf P (ok, acc) = P ok acc

module _ (checked : CheckedAdd) where
  merge_due-Thawed :
      (limit : ℤ) (acc : AppUserAccout)
      → acc.values < 2 ^ 64
      → HoldsOf (Thawed limit acc) (merge_due checked limit acc)
  unfolding merge_due get_app_cfund total_money
  merge_due-Thawed limit acc small =
      elim (Bool-cases (ltb (acc.values + due_sum limit acc.freezed_fund) (2 ^ 64))) [
        | inl b ↦
            rw (merge_due, free_due-fits checked limit acc.freezed_fund acc.values (ground arith))
              (freed _ refl (omega (arith, sum_values-keep_frozen limit acc.freezed_fund))
                (λ t h. find_if-keep_frozen limit t h acc.freezed_fund))
        | inr b ↦
            let (sum, eq, low, high) =
              free_due-overflows checked limit acc.freezed_fund acc.values small (ground arith) in
            rw (merge_due, eq) (half_freed sum (ground arith) low)
      ]

  -- `AutoMergeFreezeToFree` on an account with a free amount that fits its type, at the height or
  -- the time that it works with: either all funds that are due are freed, none of them is found
  -- afterwards, every other fund is found as before, and the money is the same in sum; or the free
  -- money and what is due exceed an uint64_t, and it fails with the frozen funds as they were.
  pub auto_merge_freeze_to_free-Thawed :
      (chain : List ℕ) (app_height : ℕ) (height limit : ℤ) (acc : AppUserAccout)
      → acc.values < 2 ^ 64
      → height_or_time chain app_height height ≡ some limit
      → Holds (Thawed limit acc) (auto_merge_freeze_to_free checked chain app_height height acc)
  unfolding auto_merge_freeze_to_free
  auto_merge_freeze_to_free-Thawed chain app_height height limit acc small e =
      rw (auto_merge_freeze_to_free, e) (merge_due-Thawed limit acc small)

keep_frozen-All :
    (limit : ℤ) (fs : List AppCFund) → All IsWord fs → All IsWord (keep_frozen limit fs)
unfolding keep_frozen
keep_frozen-All limit [] h = h
keep_frozen-All limit (f ∷ fs) h = elim (Bool-cases (leb_ℤ f.height limit)) [
  | inl e ↦ rw e (keep_frozen-All limit fs h.1)
  | inr e ↦ rw e (h.0, keep_frozen-All limit fs h.1)
]

keep_frozen-Unique : (limit : ℤ) (fs : List AppCFund) → Unique fs → Unique (keep_frozen limit fs)
unfolding keep_frozen Unique
keep_frozen-Unique limit [] u = u
keep_frozen-Unique limit (f ∷ fs) u = elim (Bool-cases (leb_ℤ f.height limit)) [
  | inl e ↦ rw e (keep_frozen-Unique limit fs u.1)
  | inr e ↦
      rw e
        (find_if-keep_frozen limit f.tag f.height fs ∙ (rw e u.0), keep_frozen-Unique limit fs u.1)
]

module _ (checked : CheckedAdd) where
  merge_due-IsValid :
      (limit : ℤ) (acc : AppUserAccout) → IsValid acc → HoldsOf Keeps (merge_due checked limit acc)
  unfolding merge_due
  merge_due-IsValid limit acc valid =
      elim (Bool-cases (ltb (acc.values + due_sum limit acc.freezed_fund) (2 ^ 64))) [
        | inl b ↦
            rw (merge_due, free_due-fits checked limit acc.freezed_fund acc.values (ground arith))
              (record {
                free = ground arith;
                frozen = keep_frozen-All limit acc.freezed_fund valid.frozen;
                unique = keep_frozen-Unique limit acc.freezed_fund valid.unique;
              })
        | inr b ↦
            let (sum, eq, low, high) =
              free_due-overflows checked limit acc.freezed_fund acc.values valid.free
                (ground arith) in
            rw (merge_due, eq)
              (record { free = high; frozen = valid.frozen; unique = valid.unique })
      ]

  -- `AutoMergeFreezeToFree` keeps a well-formed account well-formed, also where it fails.
  pub auto_merge_freeze_to_free-IsValid :
      (chain : List ℕ) (app_height : ℕ) (height : ℤ) (acc : AppUserAccout)
      → IsValid acc
      → Holds Keeps (auto_merge_freeze_to_free checked chain app_height height acc)
  unfolding auto_merge_freeze_to_free
  auto_merge_freeze_to_free-IsValid chain app_height height acc valid =
      elim (Option-cases (height_or_time chain app_height height)) [
        | inl e ↦ rw (auto_merge_freeze_to_free, e) tt
        | inr (limit, e) ↦ rw (auto_merge_freeze_to_free, e) (merge_due-IsValid limit acc valid)
      ]
