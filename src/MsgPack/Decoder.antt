-- ===== src/MsgPack/Decoder.antt =====
-- An independent reading of MessagePack, for the families that the generators write: positive
-- integers, strings up to 255 bytes, nil, and arrays and maps of up to 15 items.
use lazily_spec.Prelude.{
  ℕ, zero, suc, ◌-◌, [], ◌∷◌, Option, none, some, ltb, ◌==◌, if◌then◌else◌, nat_eq,
}
use lazily_spec.Prelude.Maybe.{◌>>=◌}
use lazily_spec.MsgPack.Bytes.{Bytes, from_bytes}

mutual
  pub data Item : Type 0 where
    nil : Item
    uint : ℕ → Item
    str : Bytes → Item
    array : Items → Item
    object : Fields → Item

  pub data Items : Type 0 where
    no_items : Items
    item : Item → Items → Items

  pub data Fields : Type 0 where
    no_fields : Fields
    field : Bytes → Item → Fields → Fields

abbrev pub Reader {ℓ} : Type ℓ → Type ℓ
Reader A = Bytes → Option (A × Bytes)

unfoldable pub split_at : ℕ → Reader Bytes
split_at zero input = some ([], input)
split_at (suc n) [] = none
split_at (suc n) (b ∷ input) = split_at n input >>= λ (front, rest). some (b ∷ front, rest)

unfoldable pub read_uint : ℕ → Reader Item
read_uint k input = split_at k input >>= λ (raw, rest). some (uint (from_bytes 0 raw), rest)

unfoldable pub read_str : ℕ → Reader Item
read_str n input = split_at n input >>= λ (raw, rest). some (str raw, rest)

-- A key is a string: what another item would be is refused.
unfoldable pub key_of : Item → Option Bytes
key_of (str raw) = some raw
key_of _ = none

module _ (read : Reader Item) where
  unfoldable pub read_items : ℕ → Reader Items
  read_items zero input = some (no_items, input)
  read_items (suc n) input = read input >>= λ (first, rest).
      read_items n rest >>= λ (more, rest'). some (item first more, rest')

  unfoldable pub read_fields : ℕ → Reader Fields
  read_fields zero input = some (no_fields, input)
  read_fields (suc n) input = read input >>= λ (k, rest). key_of k >>= λ key.
      read rest >>= λ (v, rest').
      read_fields n rest' >>= λ (more, rest''). some (field key v more, rest'')

-- The fuel bounds the depth of the item.
unfoldable pub decode : ℕ → Reader Item
unfolding read_uint read_str read_items read_fields key_of split_at
decode zero input = none
decode (suc f) [] = none
decode (suc f) (b ∷ input) =
    if ltb b 0x80
    then some (uint b, input)
    else if ltb b 0x90
    then read_fields (decode f) (b - 0x80) input >>= (λ (fs, rest). some (object fs, rest))
    else if ltb b 0xa0
    then read_items (decode f) (b - 0x90) input >>= (λ (xs, rest). some (array xs, rest))
    else if ltb b 0xc0
    then read_str (b - 0xa0) input
    else if b == 0xc0
    then some (nil, input)
    else if b == 0xcc
    then read_uint 1 input
    else if b == 0xcd
    then read_uint 2 input
    else if b == 0xce
    then read_uint 4 input
    else if b == 0xcf
    then read_uint 8 input
    else if b == 0xd9
    then (split_at 1 input >>= λ (raw, rest). read_str (from_bytes 0 raw) rest)
    else none
