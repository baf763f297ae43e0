-- ===== src/Serialize/CompactSize.antt =====
-- What is written as a compact size is read again (src/serialize.h: `WriteCompactSize`,
-- `ReadCompactSize`).
use dacrs.Base.{
  ℕ, zero, suc, ◌/◌, ◌%◌, ◌^◌, ◌<◌, ◌≤◌, Option, none, some, List, [], ◌∷◌, ◌++◌, ◌≡◌, refl, ◌∙◌,
  ap, ap₂, subst, arith, ltb, ◌==◌, Bool-cases, inl, inr, All,
}
use mathlib.Core.Option.{some-injective, none-ne-some}
use dacrs.Vm.Api.{bytes_of}
use dacrs.Serialize.{
  max_size, low_byte, read_data, write_compact_size, canonical, limited, read_compact_size,
}

pub read_data-bytes_of :
    (size n : ℕ) (rest : List ℕ)
    → n < 256 ^ size
    → read_data size (bytes_of size n ++ rest) ≡ some (n, rest)
unfolding read_data bytes_of
read_data-bytes_of zero n rest h = ap (λ k. some (k, rest)) (omega arith)
read_data-bytes_of (suc size) n rest h =
    ap (low_byte (n % 256)) (read_data-bytes_of size (n / 256) rest (omega arith))
    ∙ ap (λ k. some (k, rest)) (omega arith)

-- A number up to the limit is read as it was written, and what follows it is left.
pub read_compact_size-write_compact_size :
    (n : ℕ) (rest : List ℕ)
    → n ≤ max_size
    → read_compact_size (write_compact_size n ++ rest) ≡ some (n, rest)
unfolding read_compact_size write_compact_size
read_compact_size-write_compact_size n rest h =
    ground (arith, read_data-bytes_of 2 n rest, read_data-bytes_of 4 n rest)

-- Nothing above the limit is read.
pub read_compact_size-too_large :
    (n : ℕ) (rest : List ℕ)
    → max_size < n
    → n < 2 ^ 64
    → read_compact_size (write_compact_size n ++ rest) ≡ none
unfolding read_compact_size write_compact_size
read_compact_size-too_large n rest low high =
    ground (arith, read_data-bytes_of 4 n rest, read_data-bytes_of 8 n rest)

-- A number that is read, as the bytes that hold it.
record Holds (size : ℕ) (bs : List ℕ) (n : ℕ) (rest : List ℕ) : Type 0 where
  bytes : bs ≡ bytes_of size n ++ rest
  bound : n < 256 ^ size

low_byte-Holds :
    (size b : ℕ) (bs : List ℕ) (r : Option (ℕ × List ℕ)) (n : ℕ) (rest : List ℕ)
    → b < 256
    → ((w : ℕ) (rest : List ℕ) → r ≡ some (w, rest) → Holds size bs w rest)
    → low_byte b r ≡ some (n, rest)
    → Holds (suc size) (b ∷ bs) n rest
unfolding bytes_of
low_byte-Holds size b bs none n rest byte ih e = absurd (none-ne-some _ e)
low_byte-Holds size b bs (some (w, rest')) n rest byte ih e =
    let held = ih w rest' refl in
    let is = some-injective _ _ e in
    subst (λ r. Holds (suc size) (b ∷ bs) r.0 r.1) is
      (record {
        bytes =
            ap₂ (λ x xs. x ∷ xs) (omega arith)
              (held.bytes ∙ ap (λ k. bytes_of size k ++ rest') (omega arith));
        bound = omega (arith, held.bound);
      })

read_data-Holds :
    (size : ℕ) (bs : List ℕ) (n : ℕ) (rest : List ℕ)
    → All (λ b. b < 256) bs
    → read_data size bs ≡ some (n, rest)
    → Holds size bs n rest
unfolding read_data bytes_of
read_data-Holds zero bs n rest ok e =
    subst (λ r. Holds zero bs r.0 r.1) (some-injective _ _ e)
      (record { bytes = refl; bound = omega arith })
read_data-Holds (suc size) [] n rest ok e = absurd (none-ne-some _ e)
read_data-Holds (suc size) (b ∷ bs) n rest ok e =
    low_byte-Holds size b bs (read_data size bs) n rest ok.0
      (λ w r. read_data-Holds size bs w r ok.1) e

limited-some :
    (r : Option (ℕ × List ℕ)) (n : ℕ) (rest : List ℕ)
    → limited r ≡ some (n, rest)
    → (r ≡ some (n, rest)) × (n ≤ max_size)
limited-some none n rest e = absurd (none-ne-some _ e)
limited-some (some (m, rest')) n rest e = ground arith

canonical-some :
    (least : ℕ) (r : Option (ℕ × List ℕ)) (n : ℕ) (rest : List ℕ)
    → canonical least r ≡ some (n, rest)
    → (r ≡ some (n, rest)) × (least ≤ n)
canonical-some least none n rest e = absurd (none-ne-some _ e)
canonical-some least (some (m, rest')) n rest e = ground arith

module _ (ch : ℕ) (bs : List ℕ) (n : ℕ) (rest : List ℕ) (ok : All (λ b. b < 256) bs) where
  -- A form of some bytes that was read.
  long_form :
      (size least : ℕ)
      → limited (canonical least (read_data size bs)) ≡ some (n, rest)
      → (bs ≡ bytes_of size n ++ rest) × (n < 256 ^ size) × (least ≤ n) × (n ≤ max_size)
  long_form size least e =
      let limit = limited-some _ n rest e in
      let low = canonical-some least (read_data size bs) n rest limit.0 in
      let held = read_data-Holds size bs n rest ok low.0 in (held.bytes, held.bound, low.1, limit.1)

  write_compact_size-read :
      ch < 256
      → read_compact_size (ch ∷ bs) ≡ some (n, rest)
      → (ch ∷ bs ≡ write_compact_size n ++ rest) × (n ≤ max_size)
  unfolding read_compact_size write_compact_size
  write_compact_size-read byte e = elim (Bool-cases (ltb ch 253)) [
    | inl f ↦ ground arith
    | inr f ↦ elim (Bool-cases (ch == 253)) [
      | inl g ↦
          let form = long_form 2 253 (rw (f, g) at e) in
          ground (arith, form.0, form.1, form.2, form.3)
      | inr g ↦ elim (Bool-cases (ch == 254)) [
        | inl k ↦
            let form = long_form 4 0x10000 (rw (f, g, k) at e) in
            ground (arith, form.0, form.1, form.2, form.3)
        | inr k ↦
            let form = long_form 8 0x100000000 (rw (f, g, k) at e) in
            absurd (omega (arith, form.2, form.3))
      ]
    ]
  ]

-- From bytes, a number is read only in the form in which it is written, and only up to the limit.
pub write_compact_size-read_compact_size :
    (bs : List ℕ) (n : ℕ) (rest : List ℕ)
    → All (λ b. b < 256) bs
    → read_compact_size bs ≡ some (n, rest)
    → (bs ≡ write_compact_size n ++ rest) × (n ≤ max_size)
unfolding read_compact_size
write_compact_size-read_compact_size [] n rest ok e = absurd (none-ne-some _ e)
write_compact_size-read_compact_size (ch ∷ bs) n rest ok e =
    write_compact_size-read ch bs n rest ok.1 ok.0 e
