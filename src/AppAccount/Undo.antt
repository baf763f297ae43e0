-- ===== src/AppAccount/Undo.antt =====
-- Freezing and releasing the same fund, and when the operations come to a result
-- (src/vm/appaccount.cpp).
use dacrs.Base.{
  ℕ, ◌+◌, ◌-◌, ◌^◌, ◌<◌, Bool, true, false, none, some, List, [], ◌∷◌, ◌++◌, ◌≡◌, refl, sym, ap,
  ◌∙◌, arith, leb, ◌==◌, Bool-cases, inl, inr, ◌⊎◌,
}
use mathlib.Core.Option.{none-ne-some}
use dacrs.Base.Int.{pos, ltb_ℤ}
use dacrs.Base.Checked.{CheckedAdd}
use dacrs.AppAccount.Fund.{AppCFund, find_if, replace_first, same_key}
use dacrs.AppAccount.Keys.{same_key-own, replace_first-same}
use dacrs.AppAccount.Account.{
  AppUserAccout, Outcome, get_app_cfund, put_funds, add_app_cfund, minus_app_cfund,
}
use dacrs.AppAccount.Branches.{
  Added, fresh, joined, dropped, refused_zero, found-same_key, add_app_cfund-Added,
}
use dacrs.AppAccount.Lookup.{get_app_cfund-replaced, get_app_cfund-appended}
use dacrs.AppAccount.Ledger.{frozen_at, value_or_zero}

replace_first-appended :
    (p : AppCFund → Bool) (new : AppCFund) (fs : List AppCFund)
    → find_if p fs ≡ none
    → p new ≡ true
    → replace_first p [] (fs ++ new ∷ []) ≡ fs
unfolding find_if replace_first
replace_first-appended p new [] h hit = rw hit refl
replace_first-appended p new (f ∷ fs) h hit = elim (Bool-cases (p f)) [
  | inl e ↦ absurd (none-ne-some f (sym (rw e at h)))
  | inr e ↦ rw e (ap (λ gs. f ∷ gs) (replace_first-appended p new fs (rw e at h) hit))
]

replace_first-twice :
    (p : AppCFund → Bool) (old new : AppCFund) (fs : List AppCFund)
    → p new ≡ true
    → replace_first p (old ∷ []) (replace_first p (new ∷ []) fs) ≡ replace_first p (old ∷ []) fs
unfolding replace_first
replace_first-twice p old new [] hit = refl
replace_first-twice p old new (f ∷ fs) hit = elim (Bool-cases (p f)) [
  | inl e ↦ rw (e, hit) refl
  | inr e ↦ rw (e, e) (ap (λ gs. f ∷ gs) (replace_first-twice p old new fs hit))
]

module _ (fund : AppCFund) (acc acc' : AppUserAccout)
    (positive : ltb_ℤ (pos 0) fund.height ≡ true) where
  -- What is found with exactly the amount is used up.
  minus-exact :
      (it : AppCFund)
      → get_app_cfund fund.tag fund.height acc' ≡ some it
      → it.value ≡ fund.value
      → put_funds fund [] acc' ≡ acc
      → minus_app_cfund fund acc' ≡ some (true, acc)
  unfolding minus_app_cfund
  minus-exact it e same back = rw (minus_app_cfund, positive, e, test, equal, back) refl
    where
      test : leb fund.value it.value ≡ true
      test = ground arith

      equal : (it.value == fund.value) ≡ true
      equal = ground arith

  minus-left :
      (it : AppCFund)
      → get_app_cfund fund.tag fund.height acc' ≡ some it
      → fund.value < it.value
      → put_funds fund (record it { value = it.value - fund.value } ∷ []) acc' ≡ acc
      → minus_app_cfund fund acc' ≡ some (true, acc)
  unfolding minus_app_cfund
  minus-left it e less back = rw (minus_app_cfund, positive, e, test, unequal, back) refl
    where
      test : leb fund.value it.value ≡ true
      test = ground arith

      unequal : (it.value == fund.value) ≡ false
      unequal = ground arith

put_back-appended :
    (fund : AppCFund) (acc : AppUserAccout)
    → get_app_cfund fund.tag fund.height acc ≡ none
    → put_funds fund [] (record acc { freezed_fund = acc.freezed_fund ++ fund ∷ [] }) ≡ acc
unfolding get_app_cfund put_funds
put_back-appended fund acc e =
    ap (λ fs. record acc { freezed_fund = fs })
      (replace_first-appended (same_key fund.tag fund.height) fund acc.freezed_fund e
        (same_key-own fund))

put_back-replaced :
    (fund new it : AppCFund) (acc : AppUserAccout)
    → get_app_cfund fund.tag fund.height acc ≡ some it
    → same_key fund.tag fund.height new ≡ true
    → put_funds fund (it ∷ []) (put_funds fund (new ∷ []) acc) ≡ acc
unfolding get_app_cfund put_funds
put_back-replaced fund new it acc e hit =
    ap (λ fs. record acc { freezed_fund = fs })
      (replace_first-twice (same_key fund.tag fund.height) it new acc.freezed_fund hit
        ∙ replace_first-same (same_key fund.tag fund.height) acc.freezed_fund it e)

raised :
    (fund it : AppCFund) (n : ℕ)
    → same_key fund.tag fund.height it ≡ true
    → same_key fund.tag fund.height (record it { value = n }) ≡ true
unfolding same_key
raised fund it n hit = hit

module _ (checked : CheckedAdd) where
  -- Freezing a positive amount that fits, at a positive height, and releasing it again succeeds and
  -- gives the account back, funds and their order included, unless there was an empty fund of that
  -- tag and height.
  pub minus-add :
      (fund : AppCFund) (acc : AppUserAccout)
      → ltb_ℤ (pos 0) fund.height ≡ true
      → 0 < fund.value
      → fund.value + frozen_at acc fund.tag fund.height < 2 ^ 64
      → (get_app_cfund fund.tag fund.height acc ≡ none) ⊎ (0 < frozen_at acc fund.tag fund.height)
      → (acc' : AppUserAccout) × (add_app_cfund checked fund acc ≡ some (true, acc'))
        × (minus_app_cfund fund acc' ≡ some (true, acc))
  minus-add fund acc positive amount fits kept =
      added-undone (add_app_cfund checked fund acc) (add_app_cfund-Added checked fund acc)
    where
      found_value :
          (it : AppCFund)
          → get_app_cfund fund.tag fund.height acc ≡ some it
          → frozen_at acc fund.tag fund.height ≡ it.value
      found_value it e = ap value_or_zero e

      sum_less : (it : AppCFund) → fund.value + it.value - fund.value ≡ it.value
      sum_less it = omega arith

      positive_it :
          (it : AppCFund)
          → get_app_cfund fund.tag fund.height acc ≡ some it
          → (get_app_cfund fund.tag fund.height acc ≡ none)
            ⊎ (0 < frozen_at acc fund.tag fund.height)
          → fund.value < fund.value + it.value
      positive_it it e (inl z) = absurd (none-ne-some it (sym z ∙ e))
      positive_it it e (inr z) = omega (arith, found_value it e)

      added-undone :
          (o : Outcome)
          → Added fund acc o
          → (acc' : AppUserAccout) × (o ≡ some (true, acc'))
            × (minus_app_cfund fund acc' ≡ some (true, acc))
      added-undone _ (fresh e) = (
        _,
        refl,
        minus-exact fund acc _ positive fund (get_app_cfund-appended fund acc e) refl
            (put_back-appended fund acc e),
      )
      added-undone _ (dropped it e over) = absurd (omega (arith, found_value it e))
      added-undone _ (refused_zero it e z) = absurd (omega arith)
      added-undone _ (joined it e small) =
          let more = record it { value = fund.value + it.value } in
          let hit = found-same_key fund it acc e in
          let back =
            ap (λ v. put_funds fund (record it { value = v } ∷ []) (put_funds fund (more ∷ []) acc))
              (sum_less it)
            ∙ put_back-replaced fund more it acc e (raised fund it _ hit) in
          (
            _,
            refl,
            minus-left fund acc _ positive more
                (get_app_cfund-replaced fund acc more it e (raised fund it _ hit))
                (positive_it it e kept) back,
          )
