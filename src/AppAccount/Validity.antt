-- ===== src/AppAccount/Validity.antt =====
-- The well-formed accounts, and that the operations keep them so (src/vm/appaccount.cpp).
use dacrs.Base.{
  ℕ, ◌+◌, ◌^◌, ◌<◌, Bool, true, some, List, [], ◌∷◌, ◌++◌, ◌≡◌, ap, arith, ltb, leb, Bool-cases,
  inl, inr, All,
}
use mathlib.Core.Option.{some-injective}
use dacrs.Base.Checked.{CheckedAdd}
use dacrs.AppAccount.Fund.{
  AppCFund, AppFundOperate, find_if, replace_first, same_key, get_uint64_value,
}
use dacrs.AppAccount.Keys.{Unique, erased-Unique, replaced-Unique, appended-Unique}
use dacrs.AppAccount.Account.{
  AppUserAccout, Outcome, get_app_cfund, put_funds, add_free, sub_free, operate,
}
use dacrs.AppAccount.Branches.{
  Holds, Added, fresh, joined, dropped, refused_zero, Deducted, missing, too_little, used_up, left,
  refused_height, found-same_key, add_app_cfund-Added, minus_app_cfund-Deducted, Dispatched,
  to_free, from_free, to_fund, from_fund, bad_fund, unknown_type, operate-Dispatched,
}
use dacrs.AppAccount.Money.{fund_of-value}

-- A number that fits an uint64_t.
abbrev pub IsWord : AppCFund → Type 0
IsWord fund = fund.value < 2 ^ 64

-- All amounts fit their type, and no two funds have the same tag and height.
pub record IsValid (acc : AppUserAccout) : Type 0 where
  pub free : acc.values < 2 ^ 64
  pub frozen : All IsWord acc.freezed_fund
  pub unique : Unique acc.freezed_fund

abbrev pub Keeps : Bool → AppUserAccout → Type 0
Keeps ok acc = IsValid acc

appended-All : (fs gs : List AppCFund) → All IsWord fs → All IsWord gs → All IsWord (fs ++ gs)
appended-All [] gs h k = k
appended-All (f ∷ fs) gs h k = (h.0, appended-All fs gs h.1 k)

find_if-IsWord :
    (p : AppCFund → Bool) (fs : List AppCFund) (it : AppCFund)
    → All IsWord fs
    → find_if p fs ≡ some it
    → IsWord it
unfolding find_if
find_if-IsWord p [] it h e = ground arith
find_if-IsWord p (f ∷ fs) it h e = elim (Bool-cases (p f)) [
  | inl b ↦ omega (arith, h.0, ap AppCFund.value (some-injective f it (rw b at e)))
  | inr b ↦ find_if-IsWord p fs it h.1 (rw b at e)
]

found-IsWord :
    (fund it : AppCFund) (acc : AppUserAccout)
    → IsValid acc
    → get_app_cfund fund.tag fund.height acc ≡ some it
    → IsWord it
unfolding get_app_cfund
found-IsWord fund it acc valid e =
    find_if-IsWord (same_key fund.tag fund.height) acc.freezed_fund it valid.frozen e

replaced-All :
    (p : AppCFund → Bool) (news fs : List AppCFund)
    → All IsWord fs
    → All IsWord news
    → All IsWord (replace_first p news fs)
unfolding replace_first
replaced-All p news [] h n = h
replaced-All p news (f ∷ fs) h n = elim (Bool-cases (p f)) [
  | inl e ↦ rw e (appended-All news fs n h.1)
  | inr e ↦ rw e (h.0, replaced-All p news fs h.1 n)
]

module _ (fund : AppCFund) (acc : AppUserAccout) (valid : IsValid acc) where
  erased-IsValid : IsValid (put_funds fund [] acc)
  unfolding put_funds
  erased-IsValid = record {
    free = valid.free;
    frozen = replaced-All (same_key fund.tag fund.height) [] acc.freezed_fund valid.frozen tt;
    unique = erased-Unique fund.tag fund.height acc.freezed_fund valid.unique;
  }

  replaced-IsValid :
      (new : AppCFund)
      → same_key fund.tag fund.height new ≡ true
      → new.value < 2 ^ 64
      → IsValid (put_funds fund (new ∷ []) acc)
  unfolding put_funds
  replaced-IsValid new hit small = record {
    free = valid.free;
    frozen =
        replaced-All (same_key fund.tag fund.height) (new ∷ []) acc.freezed_fund valid.frozen
          (small, tt);
    unique = replaced-Unique fund.tag fund.height new acc.freezed_fund hit valid.unique;
  }

  Added-IsValid : (o : Outcome) → fund.value < 2 ^ 64 → Added fund acc o → Holds Keeps o
  unfolding get_app_cfund same_key
  Added-IsValid _ small (fresh e) = record {
    free = valid.free;
    frozen = appended-All acc.freezed_fund (fund ∷ []) valid.frozen (small, tt);
    unique = appended-Unique fund acc.freezed_fund valid.unique e;
  }
  Added-IsValid _ small (joined it e fits) = replaced-IsValid _ (found-same_key fund it acc e) fits
  Added-IsValid _ small (dropped it e over) = valid
  Added-IsValid _ small (refused_zero it e z) = tt

  Deducted-IsValid : (o : Outcome) → Deducted fund acc o → Holds Keeps o
  unfolding get_app_cfund same_key
  Deducted-IsValid _ (missing e) = valid
  Deducted-IsValid _ (too_little it e less) = valid
  Deducted-IsValid _ (used_up it e same) = erased-IsValid
  Deducted-IsValid _ (left it e less) =
      replaced-IsValid _ (found-same_key fund it acc e)
        (omega (arith, found-IsWord fund it acc valid e))
  Deducted-IsValid _ (refused_height e) = tt

module _ (checked : CheckedAdd) where
  add_free-IsValid :
      (money : ℕ) (acc : AppUserAccout)
      → IsValid acc
      → Holds Keeps (some (add_free checked money acc))
  unfolding add_free
  add_free-IsValid money acc valid = elim (Bool-cases (ltb (acc.values + money) (2 ^ 64))) [
    | inl b ↦
        rw (add_free, checked.fits acc.values money (ground arith))
          (record { free = ground arith; frozen = valid.frozen; unique = valid.unique })
    | inr b ↦ rw (add_free, checked.overflows acc.values money (ground arith)) valid
  ]

  sub_free-IsValid :
      (money : ℕ) (acc : AppUserAccout)
      → IsValid acc
      → Holds Keeps (some (sub_free checked money acc))
  unfolding sub_free
  sub_free-IsValid money acc valid = elim (Bool-cases (leb money acc.values)) [
    | inl b ↦
        rw (sub_free, b)
          (record {
            free = omega (arith, valid.free);
            frozen = valid.frozen;
            unique = valid.unique;
          })
    | inr b ↦ rw (sub_free, b) valid
  ]

  -- Whatever the operation and its result, on an amount that fits its type, a well-formed account
  -- stays one.
  pub operate-IsValid :
      (op : AppFundOperate) (acc : AppUserAccout)
      → get_uint64_value op < 2 ^ 64
      → IsValid acc
      → Holds Keeps (operate checked op acc)
  operate-IsValid op acc small valid =
      dispatched-Keeps op acc _ small valid (operate-Dispatched checked op acc)
    where
      dispatched-Keeps :
          (op' : AppFundOperate) (acc' : AppUserAccout) (o : Outcome)
          → get_uint64_value op' < 2 ^ 64
          → IsValid acc'
          → Dispatched checked op' acc' o
          → Holds Keeps o
      dispatched-Keeps op' acc' _ small' valid' (to_free kind) =
          add_free-IsValid (get_uint64_value op') acc' valid'
      dispatched-Keeps op' acc' _ small' valid' (from_free kind) =
          sub_free-IsValid (get_uint64_value op') acc' valid'
      dispatched-Keeps op' acc' _ small' valid' (to_fund kind fund e) =
          Added-IsValid fund acc' valid' _ (omega (arith, fund_of-value op' fund e))
            (add_app_cfund-Added checked fund acc')
      dispatched-Keeps op' acc' _ small' valid' (from_fund kind fund e) =
          Deducted-IsValid fund acc' valid' _ (minus_app_cfund-Deducted fund acc')
      dispatched-Keeps op' acc' _ small' valid' (bad_fund e) = tt
      dispatched-Keeps op' acc' _ small' valid' (unknown_type kind) = valid'
