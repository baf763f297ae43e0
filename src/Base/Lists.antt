-- ===== src/Base/Lists.antt =====
-- Lists measured and indexed by native numbers, under the library's names.
use Prim.Native.Nat.{ℕ, zero, suc, ◌+◌}
use Prim.Native.Nat.add
use mathlib.Core.Path.{◌≡◌, subst}
use mathlib.Core.List.{List, [], ◌∷◌, ◌++◌}
use mathlib.Core.Option.{Option, none, some}
use native.Mathlib.Omega.{arith}

-- A predicate by recursion computes to tuples, which the tactics read and build.
abbrev pub All {ℓ κ} : {Entry : Type ℓ} → (Entry → Type κ) → List Entry → Type κ
All Good [] = Unit
All Good (first ∷ rest) = Good first × All Good rest

module _ {ℓ} {A : Type ℓ} where
  abbrev pub length : List A → ℕ
  length [] = 0
  length (x ∷ xs) = suc (length xs)

  abbrev pub get_elem? : List A → ℕ → Option A
  get_elem? [] i = none
  get_elem? (x ∷ xs) zero = some x
  get_elem? (x ∷ xs) (suc i) = get_elem? xs i

  abbrev pub get_or : List A → ℕ → A → A
  get_or [] i d = d
  get_or (x ∷ xs) zero d = x
  get_or (x ∷ xs) (suc i) d = get_or xs i d

  pub length-append : (xs ys : List A) → length (xs ++ ys) ≡ length xs + length ys
  length-append [] ys = omega arith
  length-append (x ∷ xs) ys = omega (arith, length-append xs ys)

  -- What holds of every entry and of the default holds of whatever is fetched.
  pub get_or-All {κ} :
      (P : A → Type κ) (xs : List A) (i : ℕ) (d : A) → All P xs → P d → P (get_or xs i d)
  get_or-All P [] i d h p = p
  get_or-All P (x ∷ xs) zero d h p = h.0
  get_or-All P (x ∷ xs) (suc i) d h p = get_or-All P xs i d h.1 p

-- A predicate on the entries and their positions, the first of which is `k`.
abbrev pub AllFrom {ℓ κ} : {A : Type ℓ} → (ℕ → A → Type κ) → ℕ → List A → Type κ
AllFrom P k [] = Unit
AllFrom P k (x ∷ xs) = P k x × AllFrom P (suc k) xs

pub get_or-AllFrom {ℓ κ} :
    {A : Type ℓ} (P : ℕ → A → Type κ) (k : ℕ) (xs : List A) (i : ℕ) (d : A)
    → AllFrom P k xs
    → ((j : ℕ) → P j d)
    → P (i + k) (get_or xs i d)
get_or-AllFrom P k [] i d h p = p (i + k)
get_or-AllFrom P k (x ∷ xs) zero d h p = rw add.zero h.0
get_or-AllFrom P k (x ∷ xs) (suc i) d h p =
    subst (λ n. P n (get_or xs i d)) (omega arith) (get_or-AllFrom P (suc k) xs i d h.1 p)
