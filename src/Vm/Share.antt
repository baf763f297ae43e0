-- ===== src/Vm/Share.antt =====
-- The parameters of a call in the shared memory: what the contract lays out is what the host reads
-- (src/vm/vm8051.cpp: `GetParaLen`, `GetData`).
use dacrs.Base.{
  ℕ, zero, suc, ◌+◌, ◌-◌, ◌*◌, ◌/◌, ◌%◌, ◌<◌, ◌≤◌, ◌≡◌, refl, arith, false, ◌||◌, ◌==◌, ◌∙◌, ap,
  ap₂, leb, ltb, some, List, [], ◌∷◌, ◌++◌, length, length-append, All, subst,
}
use dacrs.Base.Words.{Mem}
use dacrs.Vm.Api.{get_para_len, read_bytes, get_items, get_data}

-- One item as the contract writes it: its size in two bytes, low byte first, and its bytes.
unfoldable pub encode_item : List ℕ → List ℕ
encode_item bytes = length bytes % 256 ∷ length bytes / 256 ∷ bytes

unfoldable pub encode_items : List (List ℕ) → List ℕ
encode_items [] = []
encode_items (item ∷ items) = encode_item item ++ encode_items items

-- The bytes stand in the memory from an address on.
abbrev pub Stored : Mem → ℕ → List ℕ → Type 0
Stored m at [] = Unit
Stored m at (b ∷ bs) = (m at ≡ b) × Stored m (at + 1) bs

-- An item is not empty, and its size fits two bytes.
abbrev pub IsItem : List ℕ → Type 0
IsItem bytes = (0 < length bytes) × (length bytes < 65536)

Stored-append :
    (m : Mem) (at : ℕ) (xs ys : List ℕ)
    → Stored m at (xs ++ ys)
    → Stored m at xs × Stored m (at + length xs) ys
Stored-append m at [] ys h = (tt, subst (λ k. Stored m k ys) (omega arith) h)
Stored-append m at (x ∷ xs) ys h =
    let (front, back) = Stored-append m (at + 1) xs ys h.1 in
    ((h.0, front), subst (λ k. Stored m k ys) (omega arith) back)

read_bytes-Stored :
    (m : Mem) (at : ℕ) (bs : List ℕ) → Stored m at bs → read_bytes (length bs) m at ≡ bs
unfolding read_bytes
read_bytes-Stored m at [] h = refl
read_bytes-Stored m at (b ∷ bs) h = ap₂ (λ x xs. x ∷ xs) h.0 (read_bytes-Stored m (at + 1) bs h.1)

item_size :
    (m : Mem) (at : ℕ) (item : List ℕ)
    → IsItem item
    → Stored m at (encode_item item)
    → get_para_len m at ≡ length item
unfolding get_para_len encode_item
item_size m at item ok h = omega (arith, h.0, h.1.0)

length-encode_item : (item : List ℕ) → length (encode_item item) ≡ length item + 2
unfolding encode_item
length-encode_item item = omega arith

-- One round of the loop.
get_items-next :
    (fuel t : ℕ) (m : Mem) (at : ℕ) (item : List ℕ) (items : List (List ℕ))
    → IsItem item
    → length item + 2 ≤ suc t
    → Stored m at (encode_item item)
    → get_items fuel m (at + 2 + length item) (suc t - (length item + 2)) ≡ some items
    → get_items (suc fuel) m at (suc t) ≡ some (item ∷ items)
unfolding get_items encode_item
get_items-next fuel t m at item items ok fits h rest =
    rw (get_items, item_size m at item ok h, enough, rest)
      (ap (λ x. some (x ∷ items))
        (read_bytes-Stored m (at + 2) item (subst (λ k. Stored m k item) (omega arith) h.1.1)))
  where
    enough : (length item == 0 || ltb (suc t) (length item + 2)) ≡ false
    enough = ground arith

total_length :
    (item : List ℕ) (items : List (List ℕ))
    → length (encode_items (item ∷ items)) ≡ length item + 2 + length (encode_items items)
unfolding encode_items
total_length item items =
    omega (arith, length-append (encode_item item) (encode_items items), length-encode_item item)

get_items-encode :
    (fuel : ℕ) (m : Mem) (at : ℕ) (items : List (List ℕ))
    → All IsItem items
    → length (encode_items items) ≤ fuel
    → Stored m at (encode_items items)
    → get_items fuel m at (length (encode_items items)) ≡ some items
unfolding encode_items get_items
get_items-encode zero m at [] ok enough h = refl
get_items-encode (suc fuel) m at [] ok enough h = refl
get_items-encode zero m at (item ∷ items) ok enough h =
    absurd (omega (arith, total_length item items))
get_items-encode (suc fuel) m at (item ∷ items) ok enough h =
    let (front, back) = Stored-append m at (encode_item item) (encode_items items) h in
    let size = total_length item items in
    let rest =
      get_items-encode fuel m (at + length (encode_item item)) items ok.1 (omega arith) back in
    subst (λ n. get_items (suc fuel) m at n ≡ some (item ∷ items))
      {x = suc (length item + 1 + length (encode_items items))} (omega arith)
      (get_items-next fuel (length item + 1 + length (encode_items items)) m at item items ok.0
        (omega arith) front
        (ap₂ (λ a n. get_items fuel m a n) (omega (arith, length-encode_item item)) (omega arith)
          ∙ rest))

-- Parameters below MAX_SHARE_RAM in all, none of them empty, stand from `at + 2` on with their total
-- size in front: `GetData` reads them as they are.
pub get_data-encode_items :
    (m : Mem) (at : ℕ) (items : List (List ℕ))
    → All IsItem items
    → 0 < length (encode_items items)
    → length (encode_items items) < 4096
    → Stored m at
        (length (encode_items items) % 256 ∷ length (encode_items items) / 256 ∷ encode_items items)
    → get_data m at ≡ some items
unfolding get_data get_para_len
get_data-encode_items m at items ok some_items fits h =
    rw (get_data, total, small)
      (get_items-encode (length (encode_items items)) m (at + 2) items ok (omega arith)
        (subst (λ k. Stored m k (encode_items items)) (omega arith) h.1.1))
  where
    total : m at + 256 * m (at + 1) ≡ length (encode_items items)
    total = omega (arith, h.0, h.1.0)

    small : (length (encode_items items) == 0 || leb 4096 (length (encode_items items))) ≡ false
    small = ground arith
