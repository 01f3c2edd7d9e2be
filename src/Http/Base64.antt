-- ===== src/Http/Base64.antt =====
-- base64_encode. `val` is the 32-bit pattern of the int; `bits` is valb + 6, the number of bits that
-- wait in it. No more than 12 of its bits are ever read, so the sign of the int plays no part.
pub mod Rfc4648
use roc_im_sdk.Prelude.{
  ℕ, zero, suc, ◌+◌, ◌-◌, ◌*◌, Bool, List, [], ◌∷◌, ◌++◌, Str, codes, leb, ltb, eqb, if◌then◌else◌,
  length,
}
use Prim.Native.Nat.{◌/◌, ◌%◌, ◌^◌}

abbrev pub alphabet : Str
alphabet = codes "ABCDEFGHIJKLMNOPQRSTUVWXYZabcdefghijklmnopqrstuvwxyz0123456789+/"

-- `chars[i]`; the index is always below 64.
unfoldable pub char_at : ℕ → Str → ℕ
char_at i [] = 0
char_at zero (c ∷ cs) = c
char_at (suc i) (c ∷ cs) = char_at i cs

abbrev pub digit : ℕ → ℕ
digit n = char_at n alphabet

pub record Encoder : Type 0 where
  pub val : ℕ
  pub bits : ℕ
  pub encoded : Str

-- The inner loop: it runs twice at most. The fuel is the number of bits.
unfoldable pub emit : ℕ → Encoder → Encoder
emit zero e = e
emit (suc fuel) e =
    let rest = emit fuel (record e {
      bits = e.bits - 6;
      encoded = e.encoded ++ digit (e.val / 2 ^ (e.bits - 6) % 64) ∷ [];
    }) in
    if leb 6 e.bits then rest else e

unfoldable pub encode_byte : ℕ → Encoder → Encoder
unfolding emit
encode_byte c e =
    emit (e.bits + 8) (record e { val = e.val * 256 % 4294967296 + c; bits = e.bits + 8 })

unfoldable pub encode_loop : Str → Encoder → Encoder
unfolding encode_byte
encode_loop [] e = e
encode_loop (c ∷ cs) e = encode_loop cs (encode_byte c e)

-- What is left over, in the lowest bits of one more digit.
unfoldable pub flush : Encoder → Str
flush e =
    if ltb 0 e.bits
    then e.encoded ++ digit (e.val * 256 % 4294967296 / 2 ^ (e.bits + 2) % 64) ∷ []
    else e.encoded

-- The last loop adds three characters at most.
unfoldable pub pad : ℕ → Str → Str
pad zero encoded = encoded
pad (suc fuel) encoded =
    let rest = pad fuel (encoded ++ 61 ∷ []) in if eqb (length encoded % 4) 0 then encoded else rest

unfoldable pub base64_encode : Str → Str
unfolding encode_loop flush pad
base64_encode s = pad 4 (flush (encode_loop s (record { val = 0; bits = 0; encoded = [] })))
