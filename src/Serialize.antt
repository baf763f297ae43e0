-- ===== src/Serialize.antt =====
-- The two encodings of lengths and numbers in a stream of bytes (src/serialize.h). A failure that is
-- thrown, at the end of the stream as well, is `none`.
pub mod VarInt
pub mod CompactSize
mod Tests
use dacrs.Base.{
  ℕ, zero, suc, ◌+◌, ◌-◌, ◌*◌, ◌/◌, ◌%◌, ◌^◌, Option, none, some, List, [], ◌∷◌, ltb, leb, ◌==◌,
  if◌then◌else◌,
}
use dacrs.Vm.Api.{bytes_of}

-- `g_sMaxSize`
abbrev pub max_size : ℕ
max_size = 0x02000000

abbrev pub low_byte : ℕ → Option (ℕ × List ℕ) → Option (ℕ × List ℕ)
low_byte b none = none
low_byte b (some (w, rest)) = some (b + 256 * w, rest)

-- `READDATA` of an unsigned integer of some bytes, low byte first.
unfoldable pub read_data : ℕ → List ℕ → Option (ℕ × List ℕ)
read_data zero bs = some (0, bs)
read_data (suc size) [] = none
read_data (suc size) (b ∷ bs) = low_byte b (read_data size bs)

unfoldable pub write_compact_size : ℕ → List ℕ
write_compact_size n =
    if ltb n 253
    then n % 256 ∷ []
    else if leb n 0xFFFF
    then 253 ∷ bytes_of 2 n
    else if leb n 0xFFFFFFFF
    then 254 ∷ bytes_of 4 n
    else 255 ∷ bytes_of 8 n

-- A number that a shorter form could hold is refused.
abbrev pub canonical : ℕ → Option (ℕ × List ℕ) → Option (ℕ × List ℕ)
canonical least none = none
canonical least (some (n, rest)) = if ltb n least then none else some (n, rest)

abbrev pub limited : Option (ℕ × List ℕ) → Option (ℕ × List ℕ)
limited none = none
limited (some (n, rest)) = if ltb max_size n then none else some (n, rest)

unfoldable pub read_compact_size : List ℕ → Option (ℕ × List ℕ)
read_compact_size [] = none
read_compact_size (ch_size ∷ bs) = limited (
    if ltb ch_size 253
    then some (ch_size, bs)
    else if ch_size == 253
    then canonical 253 (read_data 2 bs)
    else if ch_size == 254
    then canonical 0x10000 (read_data 4 bs)
    else canonical 0x100000000 (read_data 8 bs))

-- The loop of `WriteVarInt`, which fills a buffer from the last byte on: the cells that are left,
-- the high bit of the next byte, and what is in the buffer, in the order of the stream. A byte
-- behind the buffer is `none`.
unfoldable pub var_int_bytes : ℕ → ℕ → ℕ → List ℕ → Option (List ℕ)
var_int_bytes zero high n buffer = none
var_int_bytes (suc cells) high n buffer =
    let more = var_int_bytes cells 128 (n / 128 - 1) ((n % 128 + high) ∷ buffer) in
    if leb n 127 then some ((n % 128 + high) ∷ buffer) else more

-- The cells of the buffer for an integer of `w` bits.
abbrev pub buffer_size : ℕ → ℕ
buffer_size w = (w + 6) / 7

-- `WriteVarInt` of an unsigned integer.
unfoldable pub write_var_int : ℕ → ℕ → Option (List ℕ)
write_var_int w n = var_int_bytes (buffer_size w) 0 n []

-- The loop of `GetSizeOfVarInt`, with the rounds that are left.
unfoldable pub var_int_size : ℕ → ℕ → Option ℕ
var_int_size zero n = none
var_int_size (suc rounds) n =
    let more = var_int_size rounds (n / 128 - 1) in
    if leb n 127 then some 1 else elim more [ none ↦ none | some size ↦ some (suc size) ]

-- The loop of `ReadVarInt` into an unsigned integer of `w` bits.
unfoldable pub read_digits : ℕ → ℕ → List ℕ → Option (ℕ × List ℕ)
read_digits w n [] = none
read_digits w n (ch_data ∷ bs) =
    let next = (n * 128 + ch_data % 128) % 2 ^ w in
    let rest = read_digits w ((next + 1) % 2 ^ w) bs in
    if leb 128 ch_data then rest else some (next, bs)

unfoldable pub read_var_int : ℕ → List ℕ → Option (ℕ × List ℕ)
read_var_int w bs = read_digits w 0 bs
