-- ===== src/Serialize/VarInt.antt =====
-- What is written as a variable-length integer is read again (src/serialize.h: `WriteVarInt`,
-- `ReadVarInt`, `GetSizeOfVarInt`).
use dacrs.Base.{
  ℕ, zero, suc, ◌+◌, ◌-◌, ◌*◌, ◌/◌, ◌%◌, ◌^◌, ◌<◌, Option, none, some, List, [], ◌∷◌, ◌++◌, ◌≡◌,
  refl, ◌∙◌, ap, sym, subst, arith, leb, Bool-cases, inl, inr, true, false, length,
}
use native.Mathlib.Nat.{mod-eq_of_lt, pow-le-pow_right}
use dacrs.Serialize.{
  buffer_size, var_int_bytes, write_var_int, var_int_size, read_digits, read_var_int,
}

-- What was written is read as the number, and is as long as `GetSizeOfVarInt` says.
pub data Coded (w n : ℕ) (rest : List ℕ) (size : Option ℕ) : Option (List ℕ) → Type 0 where
  coded :
      (bs : List ℕ)
      → read_var_int w (bs ++ rest) ≡ some (n, rest)
      → size ≡ some (length bs)
      → Coded w n rest size (some bs)

pow_seven : (k : ℕ) → 2 ^ (7 * k) ≡ 128 ^ k
pow_seven zero = refl
pow_seven (suc k) = ap (λ j. 2 ^ j) seven_more ∙ omega (arith, pow_seven k)
  where
    seven_more : 7 * suc k ≡ suc (suc (suc (suc (suc (suc (suc (7 * k)))))))
    seven_more = omega arith

-- The buffer has a cell for every seven bits.
buffer_size-fits : (w n : ℕ) → n < 2 ^ w → n < 128 ^ buffer_size w
buffer_size-fits w n h = omega (
  arith,
  pow_seven (buffer_size w),
  pow-le-pow_right {n = 2} (omega arith) {i = w} {j = 7 * buffer_size w} (omega arith),
)

-- A last digit is read, and one that is not the last leads to the next.
read_digits-last :
    (w n : ℕ) (bs : List ℕ) → n < 2 ^ w → read_digits w (n / 128) (n % 128 ∷ bs) ≡ some (n, bs)
unfolding read_digits
read_digits-last w n bs h = rw digit (rw (mod-eq_of_lt h) (ground arith))
  where
    digit : n / 128 * 128 + n % 128 % 128 ≡ n
    digit = omega arith

read_digits-next :
    (w n : ℕ) (bs : List ℕ)
    → suc n < 2 ^ w
    → read_digits w (n / 128) ((n % 128 + 128) ∷ bs) ≡ read_digits w (suc n) bs
unfolding read_digits
read_digits-next w n bs h = rw (digit, mod-eq_of_lt small) (rw (next, mod-eq_of_lt h, high) refl)
  where
    digit : n / 128 * 128 + (n % 128 + 128) % 128 ≡ n
    digit = omega arith

    small : n < 2 ^ w
    small = omega (arith, h)

    next : n + 1 ≡ suc n
    next = omega arith

    high : leb 128 (n % 128 + 128) ≡ true
    high = ground arith

abbrev longer : ℕ → Option ℕ → Option ℕ
longer more none = none
longer more (some size) = some (size + more)

longer-one :
    (more : ℕ) (size : Option ℕ)
    → longer (suc more) size ≡ longer more (elim size [ none ↦ none | some k ↦ some (suc k) ])
longer-one more none = refl
longer-one more (some k) = ap (λ s. some s) (omega arith)

longer-none : (size : Option ℕ) → longer 0 size ≡ size
longer-none none = refl
longer-none (some k) = ap (λ s. some s) (omega arith)

above : (n : ℕ) → leb n 127 ≡ false → 127 < n
above n big = ground arith

module _ (w all : ℕ) (rest : List ℕ) where
  -- The number that is left leads the reader, through the digits in the buffer, to the whole one.
  abbrev Leads : ℕ → ℕ → List ℕ → Type 0
  Leads high n buffer =
      read_digits w (n / 128) ((n % 128 + high) ∷ (buffer ++ rest)) ≡ some (all, rest)

  abbrev Written : ℕ → ℕ → ℕ → List ℕ → Type 0
  Written cells high n buffer =
      Coded w all rest (longer (length buffer) (var_int_size cells n))
        (var_int_bytes cells high n buffer)

  Leads-next :
      (high n : ℕ) (buffer : List ℕ)
      → 127 < n
      → n < 2 ^ w
      → Leads high n buffer
      → Leads 128 (n / 128 - 1) ((n % 128 + high) ∷ buffer)
  Leads-next high n buffer big fits leads =
      read_digits-next w (n / 128 - 1) ((n % 128 + high) ∷ (buffer ++ rest)) (omega (arith, fits))
      ∙ ap (λ m. read_digits w m ((n % 128 + high) ∷ (buffer ++ rest))) (omega arith)
      ∙ leads

  first-Written :
      (cells high n : ℕ) (buffer : List ℕ)
      → leb n 127 ≡ true
      → Leads high n buffer
      → Written (suc cells) high n buffer
  unfolding var_int_bytes var_int_size read_var_int
  first-Written cells high n buffer small leads =
      rw (var_int_bytes, var_int_size, small)
        (coded ((n % 128 + high) ∷ buffer)
          (ap (λ m. read_digits w m ((n % 128 + high) ∷ (buffer ++ rest))) zero_is ∙ leads)
          (ap (λ k. some k) (omega arith)))
    where
      zero_is : 0 ≡ n / 128
      zero_is = ground arith

  more-Written :
      (cells high n : ℕ) (buffer : List ℕ)
      → leb n 127 ≡ false
      → Written cells 128 (n / 128 - 1) ((n % 128 + high) ∷ buffer)
      → Written (suc cells) high n buffer
  unfolding var_int_bytes var_int_size
  more-Written cells high n buffer big written =
      rw (var_int_bytes, var_int_size, big)
        (subst
          (λ size.
            Coded w all rest size
              (var_int_bytes cells 128 (n / 128 - 1) ((n % 128 + high) ∷ buffer)))
          (longer-one (length buffer) (var_int_size cells (n / 128 - 1))) written)

  var_int_bytes-Written :
      (cells high n : ℕ) (buffer : List ℕ)
      → n < 128 ^ suc cells
      → n < 2 ^ w
      → Leads high n buffer
      → Written (suc cells) high n buffer
  var_int_bytes-Written zero high n buffer enough fits leads =
      first-Written zero high n buffer (ground arith) leads
  var_int_bytes-Written (suc cells) high n buffer enough fits leads =
      elim (Bool-cases (leb n 127)) [
        | inl small ↦ first-Written (suc cells) high n buffer small leads
        | inr big ↦
            let bigger = above n big in
            more-Written (suc cells) high n buffer big (
              var_int_bytes-Written cells 128 (n / 128 - 1) ((n % 128 + high) ∷ buffer)
                (omega (arith, enough, bigger)) (omega (arith, fits))
                (Leads-next high n buffer bigger fits leads))
      ]

-- For an unsigned integer of `w` bits, 1 or more, that fits: `WriteVarInt` stays in its buffer, what
-- it writes is as long as `GetSizeOfVarInt` says, and `ReadVarInt` gives the number back and leaves
-- what follows.
pub write_var_int-Coded :
    (w n : ℕ) (rest : List ℕ)
    → 0 < w
    → n < 2 ^ w
    → Coded w n rest (var_int_size (buffer_size w) n) (write_var_int w n)
unfolding write_var_int
write_var_int-Coded w n rest some_bits fits =
    subst (λ size. Coded w n rest size (write_var_int w n)) (longer-none _)
      (subst (λ c. Coded w n rest (longer 0 (var_int_size c n)) (var_int_bytes c 0 n [])) cells
        (var_int_bytes-Written w n rest (buffer_size w - 1) 0 n []
          (subst (λ c. n < 128 ^ c) (sym cells) (buffer_size-fits w n fits)) fits
          (ap (λ d. read_digits w (n / 128) (d ∷ rest)) (omega arith)
            ∙ read_digits-last w n rest fits)))
  where
    cells : suc (buffer_size w - 1) ≡ buffer_size w
    cells = omega (arith, some_bits)
