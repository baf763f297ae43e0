-- ===== src/Serialize/Tests.antt =====
-- Numbers at the limits of the encodings.
use dacrs.Base.{none, some, [], ◌∷◌, ◌++◌, ◌≡◌, ◌≤◌, refl, arith}
use dacrs.Serialize.{
  max_size, read_data, write_compact_size, read_compact_size, var_int_bytes, write_var_int,
  var_int_size,
}
use dacrs.Serialize.CompactSize.{
  read_compact_size-write_compact_size, read_compact_size-too_large,
  write_compact_size-read_compact_size,
}
use dacrs.Serialize.VarInt.{Coded, write_var_int-Coded}

-- 2 ^ 32, as the comment in the source has it.
var_int_of_word : write_var_int 64 0x100000000 ≡ some (0x8E ∷ 0xFE ∷ 0xFE ∷ 0xFF ∷ 0x00 ∷ [])
unfolding write_var_int var_int_bytes
var_int_of_word = refl

-- The largest number of 64 bits fills the buffer.
largest_var_int : var_int_size 10 0xFFFFFFFFFFFFFFFF ≡ some 10
unfolding var_int_size
largest_var_int = refl

not_canonical : read_compact_size (253 ∷ 252 ∷ 0 ∷ []) ≡ none
unfolding read_compact_size read_data
not_canonical = refl

write_var_int-Coded_example : Coded 32 300 (7 ∷ []) (var_int_size 5 300) (write_var_int 32 300)
write_var_int-Coded_example = write_var_int-Coded 32 300 (7 ∷ []) (omega arith) (omega arith)

read_compact_size-write_compact_size_example :
    read_compact_size (write_compact_size 70000 ++ 7 ∷ []) ≡ some (70000, 7 ∷ [])
read_compact_size-write_compact_size_example =
    read_compact_size-write_compact_size 70000 (7 ∷ []) (omega arith)

too_large : read_compact_size (write_compact_size 0x02000001 ++ []) ≡ none
too_large = read_compact_size-too_large 0x02000001 [] (omega arith) (omega arith)

read_300 : read_compact_size (253 ∷ 44 ∷ 1 ∷ 7 ∷ []) ≡ some (300, 7 ∷ [])
unfolding read_compact_size read_data
read_300 = refl

write_compact_size-read_compact_size_example :
    (253 ∷ 44 ∷ 1 ∷ 7 ∷ [] ≡ write_compact_size 300 ++ 7 ∷ []) × (300 ≤ max_size)
write_compact_size-read_compact_size_example =
    write_compact_size-read_compact_size (253 ∷ 44 ∷ 1 ∷ 7 ∷ []) 300 (7 ∷ [])
      (omega arith, (omega arith, (omega arith, (omega arith, tt)))) read_300
