-- ===== src/MsgPack/Encodes.antt =====
-- What the encoder's parts write reads back, one lemma for each part.
use Prim.Native.Nat.{bit_or}
use lazily_spec.Prelude.{
  ℕ, zero, suc, ◌+◌, ◌-◌, ◌^◌, ◌≤◌, ◌<◌, String, Bool, true, List, [], ◌∷◌, ◌++◌, ◌≡◌, refl, some,
  ◌&&◌, ◌==◌, nat_eq, nat_beq_iff, append_assoc, arith, length, ok, pos, is_ok, is_ok→ok,
}
use native.Mathlib.Decide.{dec_lt}
use lazily_spec.MsgPack.Bytes.{
  Bytes, to_bytes, from_bytes, from_bytes-to_bytes, length-to_bytes, utf8, join, Encoded,
}
use lazily_spec.MsgPack.Decoder.{
  Item, Items, Fields, no_items, item, no_fields, field, split_at, read_uint, read_items,
  read_fields, key_of, decode,
}
use lazily_spec.MsgPack.NodeId.{u64_max, uint, str, array, entries, map}

-- `bytes` reads as `v`, whatever follows it.
abbrev pub Encodes : ℕ → Bytes → Item → Type 0
Encodes depth bytes v =
    (f : ℕ) (rest : Bytes) → depth ≤ f → decode f (bytes ++ rest) ≡ some (v, rest)

-- The call succeeds, and what it writes reads as `v`.
abbrev pub Writes : ℕ → Encoded → Item → Type 0
Writes depth r v = (bytes : Bytes) × (r ≡ ok bytes) × Encodes depth bytes v

-- The fields with the given keys, in order.
infixr 60 ◌⊢◌&◌
abbrev pub ◌⊢◌&◌ : String → Item → Fields → Fields
k ⊢ v & fs = field (utf8 k) v fs

abbrev pub one_item : Item → Items
one_item v = item v no_items

holds_below : (ℕ → Bool) → ℕ → Bool
holds_below test zero = true
holds_below test (suc bound) = let rest = holds_below test bound in test bound && rest

holds_below-at :
    (test : ℕ → Bool) (bound at : ℕ) → at < bound → holds_below test bound ≡ true → test at ≡ true
unfolding holds_below
holds_below-at test zero at small h = absurd (omega arith)
holds_below-at test (suc bound) at small h = ground (arith, holds_below-at test bound at)

str_tag_table : holds_below (λ n. bit_or 0xa0 n == 0xa0 + n) 32 ≡ true
unfolding holds_below
str_tag_table = refl

array_tag_table : holds_below (λ n. bit_or 0x90 n == 0x90 + n) 16 ≡ true
unfolding holds_below
array_tag_table = refl

map_tag_table : holds_below (λ n. bit_or 0x80 n == 0x80 + n) 16 ≡ true
unfolding holds_below
map_tag_table = refl

str_tag : (n : ℕ) → n < 32 → bit_or 0xa0 n ≡ 0xa0 + n
str_tag n h = (nat_beq_iff _ _).0 (holds_below-at _ 32 n h str_tag_table)

array_tag : (n : ℕ) → n < 16 → bit_or 0x90 n ≡ 0x90 + n
array_tag n h = (nat_beq_iff _ _).0 (holds_below-at _ 16 n h array_tag_table)

map_tag : (n : ℕ) → n < 16 → bit_or 0x80 n ≡ 0x80 + n
map_tag n h = (nat_beq_iff _ _).0 (holds_below-at _ 16 n h map_tag_table)

split_at-append :
    (front rest : Bytes) → split_at (length front) (front ++ rest) ≡ some (front, rest)
unfolding split_at
split_at-append [] rest = refl
split_at-append (b ∷ front) rest = rw (split_at-append front rest)

read_uint-to_bytes :
    (k n : ℕ) (rest : Bytes)
    → n < 256 ^ k
    → read_uint k (to_bytes k n ++ rest) ≡ some (Item.uint n, rest)
unfolding read_uint
read_uint-to_bytes k n rest h =
    let split : split_at k (to_bytes k n ++ rest) ≡ some (to_bytes k n, rest) =
      rw length-to_bytes at (split_at-append (to_bytes k n) rest) in
    rw split (rw (from_bytes-to_bytes k n h))

-- A number that the encoder accepts reads back exactly.
pub uint-Encodes : (n : ℕ) {bytes : Bytes} → uint (pos n) ≡ ok bytes → Encodes 1 bytes (Item.uint n)
unfolding uint decode
uint-Encodes n h zero rest d = absurd (omega arith)
uint-Encodes n h (suc f) rest d = ground (
  arith,
  read_uint-to_bytes 1 n rest,
  read_uint-to_bytes 2 n rest,
  read_uint-to_bytes 4 n rest,
  read_uint-to_bytes 8 n rest,
)

uint_total : (n : ℕ) → n ≤ u64_max → is_ok (uint (pos n)) ≡ true
unfolding uint
uint_total n h = ground arith

pub uint-Writes : (n : ℕ) → n ≤ u64_max → Writes 1 (uint (pos n)) (Item.uint n)
uint-Writes n h =
    let (bytes, e) = is_ok→ok (uint (pos n)) (uint_total n h) in (bytes, e, uint-Encodes n e)

short_str : (s : String) → length (utf8 s) < 32 → str s ≡ ok ((0xa0 + length (utf8 s)) ∷ utf8 s)
unfolding str
short_str s h = ground (arith, str_tag (length (utf8 s)))

long_str :
    (s : String)
    → 32 ≤ length (utf8 s)
    → length (utf8 s) ≤ 0xff
    → str s ≡ ok (0xd9 ∷ length (utf8 s) ∷ utf8 s)
unfolding str
long_str s h h' = ground arith

short_raw-Encodes :
    (raw : Bytes) → length raw < 32 → Encodes 1 ((0xa0 + length raw) ∷ raw) (Item.str raw)
unfolding decode
short_raw-Encodes raw h zero rest d = absurd (omega arith)
short_raw-Encodes raw h (suc f) rest d = ground (arith, split_at-append raw rest)

long_raw-Encodes : (raw : Bytes) → Encodes 1 (0xd9 ∷ length raw ∷ raw) (Item.str raw)
unfolding decode from_bytes
long_raw-Encodes raw zero rest d = absurd (omega arith)
long_raw-Encodes raw (suc f) rest d = ground (arith, split_at-append raw rest)

pub str-Writes : (s : String) → length (utf8 s) ≤ 0xff → Writes 1 (str s) (Item.str (utf8 s))
str-Writes s h = elim (dec_lt (length (utf8 s)) 32) [
  | yes short ↦ (_, short_str s short, short_raw-Encodes (utf8 s) short)
  | no long ↦ (_, long_str s (omega arith) h, long_raw-Encodes (utf8 s))
]

-- Each of `items` reads as the item at its place.
abbrev pub AllEncode : ℕ → List Bytes → Items → Type 0
AllEncode depth [] no_items = Unit
AllEncode depth (x ∷ xs) (item v vs) = Encodes depth x v × AllEncode depth xs vs
AllEncode depth _ _ = ⊥

read_items-join :
    (f depth : ℕ) (xs : List Bytes) (vs : Items) (rest : Bytes)
    → depth ≤ f
    → AllEncode depth xs vs
    → read_items (decode f) (length xs) (join xs ++ rest) ≡ some (vs, rest)
unfolding read_items
read_items-join f depth [] no_items rest d h = refl
read_items-join f depth [] (item v vs) rest d h = absurd h
read_items-join f depth (x ∷ xs) no_items rest d h = absurd h
read_items-join f depth (x ∷ xs) (item v vs) rest d (hx, hxs) =
    rw (append_assoc, hx f (join xs ++ rest) d) (rw (read_items-join f depth xs vs rest d hxs))

-- An array of fewer than 16 parts that read as `vs` is written, and reads as the array of `vs`.
pub array-Writes :
    (depth : ℕ) (xs : List Bytes) (vs : Items)
    → length xs < 16
    → AllEncode depth xs vs
    → Writes (suc depth) (array xs) (Item.array vs)
unfolding array
array-Writes depth xs vs small h =
    ((0x90 + length xs) ∷ join xs, ground (arith, array_tag (length xs)), go)
  where
    go : Encodes (suc depth) ((0x90 + length xs) ∷ join xs) (Item.array vs)
    go zero rest d = absurd (omega arith)
    go (suc f) rest d = unfold decode in ground (arith, read_items-join f depth xs vs rest)

-- Each of the pairs has a key of at most `limit` bytes and reads as the field at its place.
abbrev pub FieldsEncode : ℕ → ℕ → List (String × Bytes) → Fields → Type 0
FieldsEncode limit depth [] no_fields = Unit
FieldsEncode limit depth ((k, x) ∷ ps) (field key v fs) =
    (length (utf8 k) ≤ limit) × (key ≡ utf8 k) × Encodes depth x v × FieldsEncode limit depth ps fs
FieldsEncode limit depth _ _ = ⊥

pub Encodes-mono :
    (d e : ℕ) (bytes : Bytes) (v : Item) → d ≤ e → Encodes d bytes v → Encodes e bytes v
Encodes-mono d e bytes v h enc f rest le = enc f rest (omega arith)

-- The entries are written, and read back as the fields.
abbrev WritesFields : ℕ → ℕ → Encoded → Fields → Type 0
WritesFields depth n r fs =
    (bytes : Bytes) × (r ≡ ok bytes)
    × ((f : ℕ) (rest : Bytes)
        → suc depth ≤ f
        → read_fields (decode f) n (bytes ++ rest) ≡ some (fs, rest))

entries-Writes :
    (depth : ℕ) (ps : List (String × Bytes)) (fs : Fields)
    → FieldsEncode 0xff depth ps fs
    → WritesFields depth (length ps) (entries ps) fs
unfolding entries read_fields key_of
entries-Writes depth [] no_fields h = ([], refl, λ f rest d. refl)
entries-Writes depth [] (field key v fs) h = absurd h
entries-Writes depth (p ∷ ps) no_fields h = absurd h
entries-Writes depth ((k, x) ∷ ps) (field key v fs) (hk, he, hx, hps) =
    let (key_bytes, ek, rk) = str-Writes k hk in
    let (more, em, rm) = entries-Writes depth ps fs hps in
    (
      key_bytes ++ x ++ more,
      rw (ek, em),
      λ f rest d.
          rw (append_assoc, append_assoc, rk f (x ++ (more ++ rest)) (omega arith))
            (rw (hx f (more ++ rest) (omega arith)) (rw (rm f rest d, he))),
    )

map_reads :
    (depth f n : ℕ) (bytes : Bytes) (fs : Fields) (rest : Bytes)
    → n < 16
    → suc (suc depth) ≤ f
    → (suc depth ≤ f - 1 → read_fields (decode (f - 1)) n (bytes ++ rest) ≡ some (fs, rest))
    → decode f (((0x80 + n) ∷ bytes) ++ rest) ≡ some (Item.object fs, rest)
unfolding decode
map_reads depth zero n bytes fs rest small d r = absurd (omega arith)
map_reads depth (suc f) n bytes fs rest small d r =
    ground (arith, less f, r (omega (arith, less f)))
  where
    less : (f : ℕ) → suc f - 1 ≡ f
    less f = omega arith

-- A map of fewer than 16 pairs, whose keys have at most 255 bytes and are those of `fs`, and whose
-- values read as those of `fs`, is written, and reads as the map `fs`.
pub map-Writes :
    (depth : ℕ) (ps : List (String × Bytes)) (fs : Fields)
    → length ps < 16
    → FieldsEncode 0xff depth ps fs
    → Writes (suc (suc depth)) (map ps) (Item.object fs)
unfolding map
map-Writes depth ps fs small h =
    let (bytes, e, r) = entries-Writes depth ps fs h in
    (
      (0x80 + length ps) ∷ bytes,
      rw e (ground (arith, map_tag (length ps))),
      λ f rest d. map_reads depth f (length ps) bytes fs rest small d (r (f - 1) rest),
    )
