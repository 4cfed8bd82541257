-- ===== src/MsgPack/Fnv.antt =====
-- `_fnv1a64_hex`, the digest that each codec scenario carries of its wire input.
use Prim.Native.Nat.{bit_xor}
use lazily_spec.Prelude.{
  ℕ, zero, suc, ◌+◌, ◌*◌, ◌/◌, ◌%◌, ◌^◌, ◌-◌, List, [], ◌∷◌, ◌++◌, ltb, if◌then◌else◌, ◌≡◌, refl,
  length, ◌==◌, nat_eq,
}
use lazily_spec.MsgPack.Bytes.{Bytes}

abbrev pub fnv_offset : ℕ
fnv_offset = 0xCBF29CE484222325

abbrev pub fnv_prime : ℕ
fnv_prime = 0x100000001B3

-- One round of the loop; `& U64_MAX` keeps the low 64 bits.
unfoldable pub step : ℕ → ℕ → ℕ
step digest byte = (bit_xor digest byte * fnv_prime) % 2 ^ 64

unfoldable pub digest_from : ℕ → Bytes → ℕ
unfolding step
digest_from digest [] = digest
digest_from digest (byte ∷ raw) = digest_from (step digest byte) raw

-- One lowercase hexadecimal digit, as a code point.
hex_digit : ℕ → ℕ
hex_digit d = if ltb d 10 then 48 + d else 87 + d

-- The hexadecimal digits of a number before those of `acc`, the high one first; a number has fewer
-- digits than itself and one.
hex_digits : ℕ → ℕ → List ℕ → List ℕ
unfolding hex_digit
hex_digits zero n acc = acc
hex_digits (suc fuel) n acc =
    let more = hex_digits fuel (n / 16) (hex_digit (n % 16) ∷ acc) in if n == 0 then acc else more

zeros : ℕ → List ℕ
zeros zero = []
zeros (suc n) = 48 ∷ zeros n

-- f"{n:016x}" and the like: at least `width` digits, with zeros before them.
unfoldable pub hex : ℕ → ℕ → List ℕ
unfolding hex_digits zeros
hex width n = let digits = hex_digits n n [] in zeros (width - length digits) ++ digits

unfoldable pub fnv1a64_hex : Bytes → List ℕ
unfolding digest_from hex
fnv1a64_hex raw = hex 16 (digest_from fnv_offset raw)

-- A text may be digested in pieces.
pub digest_from-append :
    (digest : ℕ) (a b : Bytes) → digest_from digest (a ++ b) ≡ digest_from (digest_from digest a) b
unfolding digest_from
digest_from-append digest [] b = refl
digest_from-append digest (x ∷ a) b = digest_from-append (step digest x) a b
