-- ===== src/AppAccount/Lookup.antt =====
-- What `GetAppCFund` finds behind a change of the funds (src/vm/appaccount.cpp).
use dacrs.Base.{
  ℕ, true, false, none, some, List, [], ◌∷◌, ◌++◌, ◌≡◌, refl, sym, ◌∙◌, arith, Bool-cases,
  Option-cases, inl, inr,
}
use dacrs.Base.Int.{ℤ}
use dacrs.AppAccount.Fund.{AppCFund, find_if, same_key}
use dacrs.AppAccount.Keys.{
  Unique, same_key-own, same_key_of, same_key-tag, same_key-height, find_if-append,
  find_if-append_found, find_if-replaced, find_if-replaced_other, find_if-erased,
}
use dacrs.AppAccount.Account.{AppUserAccout, get_app_cfund, put_funds}

-- A search for another key passes over a fund that has the key of this one.
passes_over :
    (t : List ℕ) (h : ℤ) (fund f : AppCFund)
    → same_key t h fund ≡ false
    → same_key fund.tag fund.height f ≡ true
    → same_key t h f ≡ false
passes_over t h fund f miss hit = elim (Bool-cases (same_key t h f)) [
  | inr e ↦ e
  | inl e ↦
      let same =
        same_key_of t h fund (sym (same_key-tag fund.tag fund.height f hit) ∙ same_key-tag t h f e)
          (sym (same_key-height fund.tag fund.height f hit) ∙ same_key-height t h f e) in
      ground arith
]

module _ (fund : AppCFund) (acc : AppUserAccout) where
  pub get_app_cfund-replaced :
      (new it : AppCFund)
      → get_app_cfund fund.tag fund.height acc ≡ some it
      → same_key fund.tag fund.height new ≡ true
      → get_app_cfund fund.tag fund.height (put_funds fund (new ∷ []) acc) ≡ some new
  unfolding get_app_cfund put_funds
  get_app_cfund-replaced new it e hit =
      find_if-replaced (same_key fund.tag fund.height) new acc.freezed_fund it e hit

  pub get_app_cfund-erased :
      Unique acc.freezed_fund → get_app_cfund fund.tag fund.height (put_funds fund [] acc) ≡ none
  unfolding get_app_cfund put_funds
  get_app_cfund-erased u = find_if-erased fund.tag fund.height acc.freezed_fund u

  pub get_app_cfund-appended :
      get_app_cfund fund.tag fund.height acc ≡ none
      → get_app_cfund fund.tag fund.height
          (record acc { freezed_fund = acc.freezed_fund ++ fund ∷ [] })
        ≡ some fund
  unfolding get_app_cfund find_if
  get_app_cfund-appended e =
      find_if-append (same_key fund.tag fund.height) acc.freezed_fund (fund ∷ []) e
      ∙ rw (same_key-own fund) refl

  module _ (t : List ℕ) (h : ℤ) (miss : same_key t h fund ≡ false) where
    pub get_app_cfund-put_other :
        (news : List AppCFund)
        → find_if (same_key t h) news ≡ none
        → get_app_cfund t h (put_funds fund news acc) ≡ get_app_cfund t h acc
    unfolding get_app_cfund put_funds
    get_app_cfund-put_other news e =
        find_if-replaced_other (same_key fund.tag fund.height) (same_key t h) news acc.freezed_fund
          (λ f. passes_over t h fund f miss) e

    pub get_app_cfund-replaced_other :
        (new : AppCFund)
        → same_key fund.tag fund.height new ≡ true
        → get_app_cfund t h (put_funds fund (new ∷ []) acc) ≡ get_app_cfund t h acc
    unfolding find_if
    get_app_cfund-replaced_other new hit =
        get_app_cfund-put_other (new ∷ []) (rw (passes_over t h fund new miss hit) refl)

    pub get_app_cfund-appended_other :
        get_app_cfund t h (record acc { freezed_fund = acc.freezed_fund ++ fund ∷ [] })
        ≡ get_app_cfund t h acc
    unfolding get_app_cfund find_if
    get_app_cfund-appended_other = elim (Option-cases (find_if (same_key t h) acc.freezed_fund)) [
      | inl e ↦ find_if-append (same_key t h) acc.freezed_fund (fund ∷ []) e ∙ rw miss (sym e)
      | inr (it, e) ↦ find_if-append_found (same_key t h) acc.freezed_fund (fund ∷ []) it e ∙ sym e
    ]
