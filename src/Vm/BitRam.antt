-- ===== src/Vm/BitRam.antt =====
-- Bits by their addresses (src/vm/vm8051.cpp: `GetBitFlag`, `SetBitFlag`, `ClrBitFlag`).
use dacrs.Base.{
  ℕ, ◌-◌, ◌/◌, ◌%◌, ◌^◌, ◌<◌, ◌≡◌, ◌≢◌, refl, arith, Bool, true, false, not, ◌&&◌, ◌==◌,
  if◌then◌else◌, sym, ◌∙◌, bit_and, bit_or, leb, ◌⊎◌, Bool-cases, inl, inr,
}
use dacrs.Base.Words.{IsByteMem, passes_below, passes_below-all}
use dacrs.Vm.State.{
  Vm, get_bit_ram, set_bit_ram, updata_if_a, updata_a_p_flag, get_bit_flag, set_bit_flag,
  clr_bit_flag,
}

-- One bit of a byte, as `GetBitFlag` tests it.
abbrev pub has_bit : ℕ → ℕ → Bool
has_bit x k = not (bit_and x (2 ^ k) == 0)

abbrev same : Bool → Bool → Bool
same true b = b
same false b = not b

same_sound : (a b : Bool) → same a b ≡ true → a ≡ b
same_sound true b h = sym h
same_sound false true h = h
same_sound false false h = refl

abbrev set_ok : ℕ → ℕ → ℕ → Bool
set_ok x k j = same (has_bit (bit_or x (2 ^ k) % 256) j) (if j == k then true else has_bit x j)

abbrev clr_ok : ℕ → ℕ → ℕ → Bool
clr_ok x k j =
    same (has_bit (bit_and x (255 - 2 ^ k) % 256) j) (if j == k then false else has_bit x j)

abbrev all_bits : (ℕ → ℕ → Bool) → Bool
all_bits test = passes_below (λ k. passes_below (test k) 8) 8

abbrev every_byte : (ℕ → ℕ → ℕ → Bool) → Bool
every_byte test = passes_below (λ x. all_bits (test x)) 256

every_byte-set_ok : every_byte set_ok ≡ true
unfolding passes_below
every_byte-set_ok = refl

every_byte-clr_ok : every_byte clr_ok ≡ true
unfolding passes_below
every_byte-clr_ok = refl

from_table :
    (test : ℕ → ℕ → ℕ → Bool) (x k j : ℕ)
    → every_byte test ≡ true
    → x < 256
    → k < 8
    → j < 8
    → test x k j ≡ true
from_table test x k j all hx hk hj = passes_below-all (test x k) 8 j hj (
    passes_below-all (λ i. passes_below (test x i) 8) 8 k hk
      (passes_below-all (λ y. all_bits (test y)) 256 x hx all))

has_bit-set :
    (x k j : ℕ)
    → x < 256
    → k < 8
    → j < 8
    → has_bit (bit_or x (2 ^ k) % 256) j ≡ (if j == k then true else has_bit x j)
has_bit-set x k j hx hk hj = same_sound _ _ (from_table set_ok x k j every_byte-set_ok hx hk hj)

has_bit-clr :
    (x k j : ℕ)
    → x < 256
    → k < 8
    → j < 8
    → has_bit (bit_and x (255 - 2 ^ k) % 256) j ≡ (if j == k then false else has_bit x j)
has_bit-clr x k j hx hk hj = same_sound _ _ (from_table clr_ok x k j every_byte-clr_ok hx hk hj)

-- All addressable cells are bytes.
pub record HasBytes (vm : Vm) : Type 0 where
  pub ram : IsByteMem vm.chip_ram
  pub sfr : IsByteMem vm.chip_sfr

get_bit_flag-set_bit_ram :
    (a b x : ℕ) (vm : Vm)
    → a < 256
    → b < 256
    → get_bit_flag b (set_bit_ram a x vm)
      ≡ (if a / 8 == b / 8 then has_bit (x % 256) (b % 8) else get_bit_flag b vm)
unfolding get_bit_flag get_bit_ram set_bit_ram
get_bit_flag-set_bit_ram a b x vm ha hb = ground arith

get_bit_flag-own :
    (a b : ℕ) (vm : Vm) → a / 8 ≡ b / 8 → get_bit_flag b vm ≡ has_bit (get_bit_ram a vm) (b % 8)
unfolding get_bit_flag get_bit_ram
get_bit_flag-own a b vm h = ground arith

-- The parity flag is no other bit than a bit of PSW.
get_bit_flag-updata :
    (a b : ℕ) (vm : Vm)
    → ((leb 0xE0 a && leb a 0xE7) ≡ false) ⊎ (b / 8 ≢ 26)
    → get_bit_flag b (updata_if_a a vm) ≡ get_bit_flag b vm
unfolding get_bit_flag get_bit_ram updata_if_a updata_a_p_flag
get_bit_flag-updata a b vm (inl out) = rw (updata_if_a, out) refl
get_bit_flag-updata a b vm (inr other) = ground arith

get_bit_ram-byte : (a : ℕ) (vm : Vm) → HasBytes vm → get_bit_ram a vm < 256
unfolding get_bit_ram
get_bit_ram-byte a vm v = elim (Bool-cases (leb a 0x7F)) [
  | inl e ↦ rw (get_bit_ram, e) (v.ram _)
  | inr e ↦ rw (get_bit_ram, e) (v.sfr _)
]

module _ (a b : ℕ) (vm : Vm) (bytes : HasBytes vm) (a_bit : a < 256) (b_bit : b < 256)
    (apart : ((leb 0xE0 a && leb a 0xE7) ≡ false) ⊎ (b / 8 ≢ 26)) where
  -- Among the 256 bits with an address, setting one sets it and leaves the others, but for the bits
  -- of PSW when a bit of the accumulator is set, which brings the parity flag up to date.
  pub get_bit_flag-set_bit_flag :
      get_bit_flag b (set_bit_flag a vm) ≡ (if b == a then true else get_bit_flag b vm)
  unfolding set_bit_flag
  get_bit_flag-set_bit_flag =
      get_bit_flag-updata a b _ apart
      ∙ get_bit_flag-set_bit_ram a b (bit_or (get_bit_ram a vm) (2 ^ (a % 8))) vm a_bit b_bit
      ∙ elim (Bool-cases (a / 8 == b / 8)) [
        | inr e ↦ ground arith
        | inl e ↦ rw e (
            has_bit-set (get_bit_ram a vm) (a % 8) (b % 8) (get_bit_ram-byte a vm bytes)
              (omega arith) (omega arith)
            ∙ rw⁻¹ (get_bit_flag-own a b vm (ground arith)) (ground arith))
      ]

  -- Clearing one clears it and leaves the others, with the same exception.
  pub get_bit_flag-clr_bit_flag :
      get_bit_flag b (clr_bit_flag a vm) ≡ (if b == a then false else get_bit_flag b vm)
  unfolding clr_bit_flag
  get_bit_flag-clr_bit_flag =
      get_bit_flag-updata a b _ apart
      ∙ get_bit_flag-set_bit_ram a b (bit_and (get_bit_ram a vm) (255 - 2 ^ (a % 8))) vm a_bit b_bit
      ∙ elim (Bool-cases (a / 8 == b / 8)) [
        | inr e ↦ ground arith
        | inl e ↦ rw e (
            has_bit-clr (get_bit_ram a vm) (a % 8) (b % 8) (get_bit_ram-byte a vm bytes)
              (omega arith) (omega arith)
            ∙ rw⁻¹ (get_bit_flag-own a b vm (ground arith)) (ground arith))
      ]
