-- ===== src/Vm/Closure/Writes.antt =====
-- The register writes of src/vm/vm8051.h come down to writes of bytes.
use dacrs.Base.{ℕ, ◌≡◌, Bool, true, false, if◌then◌else◌}
use dacrs.Vm.State.{
  Vm, a_addr, set_sfr, set_ram_data_at, set_ram_data, set_ex_ram, set_pc, advance, branch, set_rges,
  set_psw_bit, set_ov, set_ac, set_cy, updata_a_p_flag, set_a, set_b, set_sp, set_dptr, set_bit_ram,
  updata_if_a, set_bit_flag, clr_bit_flag,
}

-- `w` comes from `v` by writes of bytes and of PC; to the external memory only where `ext` says so.
pub data Writes (ext : Bool) (v : Vm) : Vm → Type 0 where
  start : Writes ext v v
  sfr : (i x : ℕ) {w : Vm} → Writes ext v w → Writes ext v (set_sfr i x w)
  ram : (i x : ℕ) {w : Vm} → Writes ext v w → Writes ext v (set_ram_data_at i x w)
  to_pc : (x : ℕ) {w : Vm} → Writes ext v w → Writes ext v (set_pc x w)
  ex : (i x : ℕ) {w : Vm} → ext ≡ true → Writes ext v w → Writes ext v (set_ex_ram i x w)

-- What the elementary writes keep.
pub record Closed (P : Vm → Type 0) : Type 0 where
  pub keep_sfr : (i x : ℕ) (vm : Vm) → P vm → P (set_sfr i x vm)
  pub keep_ram : (i x : ℕ) (vm : Vm) → P vm → P (set_ram_data_at i x vm)
  pub keep_pc : (x : ℕ) (vm : Vm) → P vm → P (set_pc x vm)

-- A predicate that the writes keep holds behind any number of them.
pub Writes-Closed : (P : Vm → Type 0) {v w : Vm} → Closed P → Writes false v w → P v → P w
Writes-Closed P c start h = h
Writes-Closed P c (sfr i x r) h = c.keep_sfr i x _ (Writes-Closed P c r h)
Writes-Closed P c (ram i x r) h = c.keep_ram i x _ (Writes-Closed P c r h)
Writes-Closed P c (to_pc x r) h = c.keep_pc x _ (Writes-Closed P c r h)
Writes-Closed P c (ex i x e r) h = cc

pub Writes-Closed_ex :
    (P : Vm → Type 0) {v w : Vm}
    → Closed P
    → ((i x : ℕ) (vm : Vm) → P vm → P (set_ex_ram i x vm))
    → Writes true v w
    → P v
    → P w
Writes-Closed_ex P c k start h = h
Writes-Closed_ex P c k (sfr i x r) h = c.keep_sfr i x _ (Writes-Closed_ex P c k r h)
Writes-Closed_ex P c k (ram i x r) h = c.keep_ram i x _ (Writes-Closed_ex P c k r h)
Writes-Closed_ex P c k (to_pc x r) h = c.keep_pc x _ (Writes-Closed_ex P c k r h)
Writes-Closed_ex P c k (ex i x e r) h = k i x _ (Writes-Closed_ex P c k r h)

module _ {ext : Bool} {v : Vm} where
  pub if-Writes :
      (b : Bool) {x y : Vm} → Writes ext v x → Writes ext v y → Writes ext v (if b then x else y)
  if-Writes true p q = p
  if-Writes false p q = q

  pub set_ram_data-Writes : (i x : ℕ) {w : Vm} → Writes ext v w → Writes ext v (set_ram_data i x w)
  unfolding set_ram_data
  set_ram_data-Writes i x r = if-Writes _ (sfr i x r) (ram i x r)

  pub advance-Writes : (n : ℕ) {w : Vm} → Writes ext v w → Writes ext v (advance n w)
  unfolding advance
  advance-Writes n r = to_pc _ r

  pub branch-Writes : (rel : ℕ) {w : Vm} → Writes ext v w → Writes ext v (branch rel w)
  unfolding branch
  branch-Writes rel r = to_pc _ r

  pub set_rges-Writes : (n x : ℕ) {w : Vm} → Writes ext v w → Writes ext v (set_rges n x w)
  unfolding set_rges
  set_rges-Writes n x r = ram n x r

  pub set_psw_bit-Writes : (k b : ℕ) {w : Vm} → Writes ext v w → Writes ext v (set_psw_bit k b w)
  unfolding set_psw_bit
  set_psw_bit-Writes k b r = sfr _ _ r

  pub set_ov-Writes : (b : ℕ) {w : Vm} → Writes ext v w → Writes ext v (set_ov b w)
  unfolding set_ov
  set_ov-Writes b r = set_psw_bit-Writes 2 b r

  pub set_ac-Writes : (b : ℕ) {w : Vm} → Writes ext v w → Writes ext v (set_ac b w)
  unfolding set_ac
  set_ac-Writes b r = set_psw_bit-Writes 6 b r

  pub set_cy-Writes : (b : ℕ) {w : Vm} → Writes ext v w → Writes ext v (set_cy b w)
  unfolding set_cy
  set_cy-Writes b r = set_psw_bit-Writes 7 b r

  pub updata_a_p_flag-Writes : {w : Vm} → Writes ext v w → Writes ext v (updata_a_p_flag w)
  unfolding updata_a_p_flag
  updata_a_p_flag-Writes r = set_psw_bit-Writes 0 _ r

  pub set_a-Writes : (x : ℕ) {w : Vm} → Writes ext v w → Writes ext v (set_a x w)
  unfolding set_a
  set_a-Writes x r = updata_a_p_flag-Writes (sfr a_addr x r)

  pub set_b-Writes : (x : ℕ) {w : Vm} → Writes ext v w → Writes ext v (set_b x w)
  unfolding set_b
  set_b-Writes x r = sfr _ x r

  pub set_sp-Writes : (x : ℕ) {w : Vm} → Writes ext v w → Writes ext v (set_sp x w)
  unfolding set_sp
  set_sp-Writes x r = sfr _ x r

  pub set_dptr-Writes : (x : ℕ) {w : Vm} → Writes ext v w → Writes ext v (set_dptr x w)
  unfolding set_dptr
  set_dptr-Writes x r = sfr _ _ (sfr _ x r)

  pub set_bit_ram-Writes :
      (addr x : ℕ) {w : Vm} → Writes ext v w → Writes ext v (set_bit_ram addr x w)
  unfolding set_bit_ram
  set_bit_ram-Writes addr x r = if-Writes _ (ram _ x r) (sfr _ x r)

  pub updata_if_a-Writes : (addr : ℕ) {w : Vm} → Writes ext v w → Writes ext v (updata_if_a addr w)
  unfolding updata_if_a
  updata_if_a-Writes addr r = if-Writes _ (updata_a_p_flag-Writes r) r

  pub set_bit_flag-Writes :
      (addr : ℕ) {w : Vm} → Writes ext v w → Writes ext v (set_bit_flag addr w)
  unfolding set_bit_flag
  set_bit_flag-Writes addr r = updata_if_a-Writes addr (set_bit_ram-Writes addr _ r)

  pub clr_bit_flag-Writes :
      (addr : ℕ) {w : Vm} → Writes ext v w → Writes ext v (clr_bit_flag addr w)
  unfolding clr_bit_flag
  clr_bit_flag-Writes addr r = updata_if_a-Writes addr (set_bit_ram-Writes addr _ r)

-- The writes of an instruction are read off its result, the last one first.
pub ruleset writes = (
  start, to_pc, sfr, ram, if-Writes, advance-Writes, branch-Writes, set_rges-Writes,
  set_ram_data-Writes, set_ov-Writes, set_ac-Writes, set_cy-Writes, set_a-Writes, set_b-Writes,
  set_sp-Writes, set_dptr-Writes, set_bit_flag-Writes, clr_bit_flag-Writes,
)
