-- ===== src/Base/Dict.antt =====
-- `std::map` as a list of entries, one for each key, with the laws that proofs go by.
use Prim.Native.Nat.{ℕ}
use mathlib.Core.Path.{◌≡◌, refl}
use mathlib.Core.Logic.{◌↔◌}
use mathlib.Core.Bool.{Bool, true, false, ◌&&◌}
use mathlib.Core.Option.{Option, none, some}
use mathlib.Core.List.{List, [], ◌∷◌}
use native.Mathlib.Omega.{arith}
use dacrs.Base.Tests.{◌==◌, ==_iff, if◌then◌else◌}

-- The keys of a map, with their comparison.
pub record Key {ℓ} (A : Type ℓ) : Type ℓ where
  pub same : A → A → Bool
  pub same_iff : (a b : A) → (same a b ≡ true) ↔ (a ≡ b)

instance abbrev pub nat_key : Key ℕ
nat_key = record { same = ◌==◌; same_iff = ==_iff }

abbrev pub same_bytes : List ℕ → List ℕ → Bool
same_bytes [] [] = true
same_bytes [] (y ∷ ys) = false
same_bytes (x ∷ xs) [] = false
same_bytes (x ∷ xs) (y ∷ ys) = x == y && same_bytes xs ys

pub same_bytes_iff : (xs ys : List ℕ) → (same_bytes xs ys ≡ true) ↔ (xs ≡ ys)
same_bytes_iff [] [] = ground arith
same_bytes_iff [] (y ∷ ys) = ground arith
same_bytes_iff (x ∷ xs) [] = ground arith
same_bytes_iff (x ∷ xs) (y ∷ ys) = ground (arith, same_bytes_iff xs ys)

instance abbrev pub bytes_key : Key (List ℕ)
bytes_key = record { same = same_bytes; same_iff = same_bytes_iff }

abbrev pub Dict {ℓ κ} : Type ℓ → Type κ → Type (ℓ ⊔ κ)
Dict A B = List (A × B)

pub same_refl {ℓ} : {A : Type ℓ} ⦃k : Key A⦄ (a : A) → k.same a a ≡ true
same_refl ⦃k⦄ a = (k.same_iff a a).1 refl

module _ {ℓ κ} {A : Type ℓ} {B : Type κ} ⦃k : Key A⦄ where
  -- `find`, or `count` and then the entry
  unfoldable pub lookup : A → Dict A B → Option B
  lookup a [] = none
  lookup a ((c, b) ∷ d) = let rest = lookup a d in if k.same a c then some b else rest

  -- `m[a] = b`
  unfoldable pub put : A → B → Dict A B → Dict A B
  put a b [] = (a, b) ∷ []
  put a b ((c, old) ∷ d) =
      let rest = put a b d in if k.same a c then (c, b) ∷ d else (c, old) ∷ rest

  -- `m.erase(a)`
  unfoldable pub erase : A → Dict A B → Dict A B
  erase a [] = []
  erase a ((c, b) ∷ d) = let rest = erase a d in if k.same a c then rest else (c, b) ∷ rest

  -- No key has two entries.
  abbrev pub IsMap : Dict A B → Type κ
  IsMap [] = Unit
  IsMap ((a, b) ∷ d) = (lookup a d ≡ none) × IsMap d

  pub lookup-put :
      (j a : A) (b : B) (d : Dict A B)
      → lookup j (put a b d) ≡ (if k.same j a then some b else lookup j d)
  unfolding lookup put
  lookup-put j a b [] = refl
  lookup-put j a b ((c, old) ∷ d) =
      ground (arith, lookup-put j a b d, k.same_iff j a, k.same_iff j c, k.same_iff a c)

  pub lookup-erase :
      (j a : A) (d : Dict A B) → lookup j (erase a d) ≡ (if k.same j a then none else lookup j d)
  unfolding lookup erase
  lookup-erase j a [] = ground arith
  lookup-erase j a ((c, b) ∷ d) =
      ground (arith, lookup-erase j a d, k.same_iff j a, k.same_iff j c, k.same_iff a c)

  pub put-IsMap : (a : A) (b : B) (d : Dict A B) → IsMap d → IsMap (put a b d)
  unfolding put lookup
  put-IsMap a b [] h = ground arith
  put-IsMap a b ((c, old) ∷ d) h =
      ground (arith, put-IsMap a b d h.1, lookup-put c a b d, k.same_iff c a, k.same_iff a c)

  pub erase-IsMap : (a : A) (d : Dict A B) → IsMap d → IsMap (erase a d)
  unfolding erase
  erase-IsMap a [] h = tt
  erase-IsMap a ((c, b) ∷ d) h = ground (arith, erase-IsMap a d h.1, lookup-erase c a d)
