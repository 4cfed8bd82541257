-- ===== src/MsgPack/Bytes.antt =====
-- Byte strings, and what Python's `int.to_bytes` and `str.encode` give.
use Prim.Native.Char.{code}
use lazily_spec.Prelude.{
  ℕ, zero, suc, ◌+◌, ◌*◌, ◌/◌, ◌%◌, ◌^◌, ◌<◌, String, List, [], ◌∷◌, ◌++◌, ltb, if◌then◌else◌, ◌≡◌,
  refl, arith, length, length-append, Result,
}
use native.Mathlib.Nat.{pow-suc}

abbrev pub Bytes : Type 0
Bytes = List ℕ

abbrev pub IsByte : ℕ → Type 0
IsByte b = b < 256

-- The `ValueError`s of the encoders.
pub data EncodeError : Type 0 where
  not_unsigned large_number long_string long_array long_map : EncodeError

abbrev pub Encoded : Type 0
Encoded = Result EncodeError Bytes

-- b"".join(items)
abbrev pub join : List Bytes → Bytes
join [] = []
join (item ∷ items) = item ++ join items

-- n.to_bytes(k, "big"), for an `n` that fits
unfoldable pub to_bytes : ℕ → ℕ → Bytes
to_bytes zero n = []
to_bytes (suc k) n = to_bytes k (n / 256) ++ (n % 256) ∷ []

-- int.from_bytes(raw, "big"), after the bytes that stand for `acc`
unfoldable pub from_bytes : ℕ → Bytes → ℕ
from_bytes acc [] = acc
from_bytes acc (b ∷ raw) = from_bytes (acc * 256 + b) raw

from_bytes-append :
    (acc : ℕ) (raw : Bytes) (b : ℕ) → from_bytes acc (raw ++ b ∷ []) ≡ from_bytes acc raw * 256 + b
unfolding from_bytes
from_bytes-append acc [] b = refl
from_bytes-append acc (c ∷ raw) b = from_bytes-append (acc * 256 + c) raw b

pub from_bytes-to_bytes : (k n : ℕ) → n < 256 ^ k → from_bytes 0 (to_bytes k n) ≡ n
unfolding to_bytes from_bytes
from_bytes-to_bytes zero n h = omega arith
from_bytes-to_bytes (suc k) n h = omega (
  arith,
  from_bytes-append 0 (to_bytes k (n / 256)) (n % 256),
  from_bytes-to_bytes k (n / 256) (omega (arith, pow-suc 256 k)),
)

pub length-to_bytes : (k n : ℕ) → length (to_bytes k n) ≡ k
unfolding to_bytes
length-to_bytes zero n = refl
length-to_bytes (suc k) n =
    omega
      (arith, length-append (to_bytes k (n / 256)) ((n % 256) ∷ []), length-to_bytes k (n / 256))

-- The UTF-8 form of one code point.
utf8_char : ℕ → Bytes
utf8_char c =
    if ltb c 0x80
    then c ∷ []
    else if ltb c 0x800
    then (0xc0 + c / 64) ∷ (0x80 + c % 64) ∷ []
    else if ltb c 0x10000
    then (0xe0 + c / 4096) ∷ (0x80 + c / 64 % 64) ∷ (0x80 + c % 64) ∷ []
    else (0xf0 + c / 262144) ∷ (0x80 + c / 4096 % 64) ∷ (0x80 + c / 64 % 64) ∷ (0x80 + c % 64) ∷ []

-- s.encode("utf-8")
unfoldable pub utf8 : String → Bytes
unfolding utf8_char
utf8 String.[] = []
utf8 (String.◌∷◌ c s) = utf8_char (code c) ++ utf8 s
