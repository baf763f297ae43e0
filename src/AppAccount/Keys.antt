-- ===== src/AppAccount/Keys.antt =====
-- The search for a fund and the replacement of what it finds.
use dacrs.Base.{
  ℕ, Bool, true, false, none, some, List, [], ◌∷◌, ◌++◌, ◌≡◌, refl, sym, ap, ap₂, arith,
  if◌then◌else◌, Bool-cases, inl, inr, ◌∙◌,
}
use mathlib.Core.Option.{some-injective, none-ne-some}
use dacrs.Base.Int.{ℤ, eq_of_parts}
use dacrs.AppAccount.Fund.{AppCFund, bytes_eq, same_key, find_if, replace_first}

bytes_eq_sound : (xs ys : List ℕ) → bytes_eq xs ys ≡ true → xs ≡ ys
unfolding bytes_eq
bytes_eq_sound [] [] h = refl
bytes_eq_sound [] (y ∷ ys) h = ground arith
bytes_eq_sound (x ∷ xs) [] h = ground arith
bytes_eq_sound (x ∷ xs) (y ∷ ys) h = ground (arith, bytes_eq_sound xs ys)

pub bytes_eq_refl : (xs : List ℕ) → bytes_eq xs xs ≡ true
unfolding bytes_eq
bytes_eq_refl [] = refl
bytes_eq_refl (x ∷ xs) = ground (arith, bytes_eq_refl xs)

-- A fund has one key.
pub same_key-tag : (t : List ℕ) (h : ℤ) (f : AppCFund) → same_key t h f ≡ true → f.tag ≡ t
unfolding same_key
same_key-tag t h f p = bytes_eq_sound f.tag t (ground arith)

pub same_key-height : (t : List ℕ) (h : ℤ) (f : AppCFund) → same_key t h f ≡ true → f.height ≡ h
unfolding same_key
same_key-height t h f p = eq_of_parts f.height h (ground arith)

pub same_key-own : (f : AppCFund) → same_key f.tag f.height f ≡ true
unfolding same_key
same_key-own f = ground (arith, bytes_eq_refl f.tag)

-- What `find_if` finds passes the test.
pub find_if-passes :
    (p : AppCFund → Bool) (fs : List AppCFund) (it : AppCFund)
    → find_if p fs ≡ some it
    → p it ≡ true
unfolding find_if
find_if-passes p [] it h = ground arith
find_if-passes p (f ∷ fs) it h = ground (arith, find_if-passes p fs it)

pub find_if-append :
    (p : AppCFund → Bool) (fs gs : List AppCFund)
    → find_if p fs ≡ none
    → find_if p (fs ++ gs) ≡ find_if p gs
unfolding find_if
find_if-append p [] gs h = refl
find_if-append p (f ∷ fs) gs h = ground (arith, find_if-append p fs gs)

pub find_if-append_found :
    (p : AppCFund → Bool) (fs gs : List AppCFund) (it : AppCFund)
    → find_if p fs ≡ some it
    → find_if p (fs ++ gs) ≡ some it
unfolding find_if
find_if-append_found p [] gs it h = ground arith
find_if-append_found p (f ∷ fs) gs it h = ground (arith, find_if-append_found p fs gs it)

-- With the same search, a fund that passes is found where it was put.
pub find_if-replaced :
    (p : AppCFund → Bool) (new : AppCFund) (fs : List AppCFund) (it : AppCFund)
    → find_if p fs ≡ some it
    → p new ≡ true
    → find_if p (replace_first p (new ∷ []) fs) ≡ some new
unfolding find_if replace_first
find_if-replaced p new [] it h n = ground arith
find_if-replaced p new (f ∷ fs) it h n = elim (Bool-cases (p f)) [
  | inl e ↦ rw (e, n) refl
  | inr e ↦ rw (e, e) (find_if-replaced p new fs it (rw e at h) n)
]

pub same_key_of :
    (t : List ℕ) (h : ℤ) (f : AppCFund) → f.tag ≡ t → f.height ≡ h → same_key t h f ≡ true
same_key_of t h f p q = sym (ap₂ (λ a b. same_key a b f) p q) ∙ same_key-own f

-- A fund with another key does not have the key of one that passes.
pub keys_apart :
    (t : List ℕ) (h : ℤ) (f g : AppCFund)
    → same_key t h f ≡ false
    → same_key t h g ≡ true
    → same_key f.tag f.height g ≡ false
keys_apart t h f g miss hit = elim (Bool-cases (same_key f.tag f.height g)) [
  | inl e ↦
      let same =
        same_key_of t h f (sym (same_key-tag f.tag f.height g e) ∙ same_key-tag t h g hit)
          (sym (same_key-height f.tag f.height g e) ∙ same_key-height t h g hit) in
      ground arith
  | inr e ↦ e
]

-- No other search sees the replacement.
pub find_if-replaced_other :
    (p q : AppCFund → Bool) (news fs : List AppCFund)
    → ((f : AppCFund) → p f ≡ true → q f ≡ false)
    → find_if q news ≡ none
    → find_if q (replace_first p news fs) ≡ find_if q fs
unfolding find_if replace_first
find_if-replaced_other p q news [] apart h = refl
find_if-replaced_other p q news (f ∷ fs) apart h = elim (Bool-cases (p f)) [
  | inl e ↦ rw (e, apart f e) (find_if-append q news fs h)
  | inr e ↦
      rw (e) (ap (λ o. if q f then some f else o) (find_if-replaced_other p q news fs apart h))
]

-- The key of a fund is its own: no later one has the same tag and height.
unfoldable pub Unique : List AppCFund → Type 0
Unique [] = Unit
Unique (f ∷ fs) = (find_if (same_key f.tag f.height) fs ≡ none) × Unique fs

module _ (t : List ℕ) (h : ℤ) where
  find_if-first_key :
      (f : AppCFund) (fs : List AppCFund)
      → same_key t h f ≡ true
      → find_if (same_key f.tag f.height) fs ≡ find_if (same_key t h) fs
  find_if-first_key f fs hit =
      ap₂ (λ a b. find_if (same_key a b) fs) (same_key-tag t h f hit) (same_key-height t h f hit)

  pub find_if-erased :
      (fs : List AppCFund)
      → Unique fs
      → find_if (same_key t h) (replace_first (same_key t h) [] fs) ≡ none
  unfolding find_if replace_first Unique
  find_if-erased [] u = refl
  find_if-erased (f ∷ fs) u = elim (Bool-cases (same_key t h f)) [
    | inl e ↦ rw e (sym (find_if-first_key f fs e) ∙ u.0)
    | inr e ↦ rw (e, e) (find_if-erased fs u.1)
  ]

  other_search :
      (f : AppCFund) (news fs : List AppCFund)
      → same_key t h f ≡ false
      → find_if (same_key f.tag f.height) news ≡ none
      → find_if (same_key f.tag f.height) (replace_first (same_key t h) news fs)
        ≡ find_if (same_key f.tag f.height) fs
  other_search f news fs miss h' =
      find_if-replaced_other (same_key t h) (same_key f.tag f.height) news fs
        (λ g. keys_apart t h f g miss) h'

  pub erased-Unique : (fs : List AppCFund) → Unique fs → Unique (replace_first (same_key t h) [] fs)
  unfolding Unique replace_first find_if
  erased-Unique [] u = u
  erased-Unique (f ∷ fs) u = elim (Bool-cases (same_key t h f)) [
    | inl e ↦ rw e u.1
    | inr e ↦ rw e (other_search f [] fs e refl ∙ u.0, erased-Unique fs u.1)
  ]

  pub replaced-Unique :
      (new : AppCFund) (fs : List AppCFund)
      → same_key t h new ≡ true
      → Unique fs
      → Unique (replace_first (same_key t h) (new ∷ []) fs)
  unfolding Unique replace_first find_if
  replaced-Unique new [] hit u = u
  replaced-Unique new (f ∷ fs) hit u = elim (Bool-cases (same_key t h f)) [
    | inl e ↦ rw e (find_if-first_key new fs hit ∙ sym (find_if-first_key f fs e) ∙ u.0, u.1)
    | inr e ↦ rw e (
      other_search f (new ∷ []) fs e (rw (keys_apart t h f new e hit) refl) ∙ u.0,
      replaced-Unique new fs hit u.1,
    )
  ]

pub replace_first-same :
    (p : AppCFund → Bool) (fs : List AppCFund) (it : AppCFund)
    → find_if p fs ≡ some it
    → replace_first p (it ∷ []) fs ≡ fs
unfolding find_if replace_first
replace_first-same p [] it h = refl
replace_first-same p (f ∷ fs) it h = elim (Bool-cases (p f)) [
  | inl e ↦ rw e (ap (λ g. g ∷ fs) (sym (some-injective f it (rw e at h))))
  | inr e ↦ rw e (ap (λ gs. f ∷ gs) (replace_first-same p fs it (rw e at h)))
]

-- A new key leaves the others what they are.
pub appended-Unique :
    (new : AppCFund) (fs : List AppCFund)
    → Unique fs
    → find_if (same_key new.tag new.height) fs ≡ none
    → Unique (fs ++ new ∷ [])
unfolding Unique find_if
appended-Unique new [] u h = (refl, tt)
appended-Unique new (f ∷ fs) u h = elim (Bool-cases (same_key new.tag new.height f)) [
  | inl e ↦ absurd (none-ne-some f (sym (rw e at h)))
  | inr e ↦ (
    find_if-append (same_key f.tag f.height) fs (new ∷ []) u.0
        ∙ (rw (keys_apart new.tag new.height f new e (same_key-own new)) refl),
    appended-Unique new fs u.1 (rw e at h),
  )
]
