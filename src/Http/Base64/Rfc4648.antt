-- ===== src/Http/Base64/Rfc4648.antt =====
-- The encoder agrees with RFC 4648: three bytes make four digits, and one or two bytes at the end are
-- padded.
use roc_im_sdk.Prelude.{
  ℕ, suc, ◌≢◌, ◌+◌, ◌*◌, ◌<◌, ◌≡◌, refl, ◌∙◌, ap, [], ◌∷◌, ◌++◌, Str, arith, All, length,
  length-append,
}
use mathlib.Core.List.{append_assoc, append-nil}
use Prim.Native.Nat.{◌/◌, ◌%◌}
use roc_im_sdk.Http.Base64.{digit, encode_byte, encode_loop, flush, pad, base64_encode}

abbrev pub rfc4648 : Str → Str
rfc4648 [] = []
rfc4648 (a ∷ []) = digit (a / 4) ∷ digit (a % 4 * 16) ∷ 61 ∷ 61 ∷ []
rfc4648 (a ∷ b ∷ []) = digit (a / 4) ∷ digit (a % 4 * 16 + b / 16) ∷ digit (b % 16 * 4) ∷ 61 ∷ []
rfc4648 (a ∷ b ∷ c ∷ rest) =
    digit (a / 4)
    ∷ digit (a % 4 * 16 + b / 16)
    ∷ digit (b % 16 * 4 + c / 64)
    ∷ digit (c % 64)
    ∷ rfc4648 rest

-- The bytes, one at a time, by the number of bits that wait.
module _ (v : ℕ) (out : Str) where
  first_byte :
      (a : ℕ)
      → a < 256
      → encode_byte a (record { val = v; bits = 0; encoded = out })
        ≡ record { val = v * 256 % 4294967296 + a; bits = 2; encoded = out ++ digit (a / 4) ∷ [] }
  unfolding encode_byte
  first_byte a h =
      let six : (v * 256 % 4294967296 + a) / 4 % 64 ≡ a / 4 = omega arith in rw six refl

  second_byte :
      (a b : ℕ)
      → a < 256
      → b < 256
      → v % 256 ≡ a
      → encode_byte b (record { val = v; bits = 2; encoded = out }) ≡ record {
        val = v * 256 % 4294967296 + b;
        bits = 4;
        encoded = out ++ digit (a % 4 * 16 + b / 16) ∷ [];
      }
  unfolding encode_byte
  second_byte a b h k e =
      let six : (v * 256 % 4294967296 + b) / 16 % 64 ≡ a % 4 * 16 + b / 16 = omega arith in
      rw six refl

  third_byte :
      (b c : ℕ)
      → b < 256
      → c < 256
      → v % 256 ≡ b
      → encode_byte c (record { val = v; bits = 4; encoded = out }) ≡ record {
        val = v * 256 % 4294967296 + c;
        bits = 0;
        encoded = (out ++ digit (b % 16 * 4 + c / 64) ∷ []) ++ digit (c % 64) ∷ [];
      }
  unfolding encode_byte
  third_byte b c h k e =
      let six : (v * 256 % 4294967296 + c) / 64 % 64 ≡ b % 16 * 4 + c / 64 = omega arith in
      let last : (v * 256 % 4294967296 + c) / 1 % 64 ≡ c % 64 = omega arith in rw (six, last) refl

flush_two :
    (v a : ℕ) (out : Str)
    → a < 256
    → v % 256 ≡ a
    → flush (record { val = v; bits = 2; encoded = out }) ≡ out ++ digit (a % 4 * 16) ∷ []
unfolding flush
flush_two v a out h e =
    let six : v * 256 % 4294967296 / 16 % 64 ≡ a % 4 * 16 = omega arith in rw six refl

flush_four :
    (v b : ℕ) (out : Str)
    → b < 256
    → v % 256 ≡ b
    → flush (record { val = v; bits = 4; encoded = out }) ≡ out ++ digit (b % 16 * 4) ∷ []
unfolding flush
flush_four v b out h e =
    let six : v * 256 % 4294967296 / 64 % 64 ≡ b % 16 * 4 = omega arith in rw six refl

-- The padding, by the length of what is encoded.
pad_done : (fuel : ℕ) (out : Str) → length out % 4 ≡ 0 → pad (suc fuel) out ≡ out
unfolding pad
pad_done fuel out h = ground (arith, h)

pad_more :
    (fuel : ℕ) (out : Str) → length out % 4 ≢ 0 → pad (suc fuel) out ≡ pad fuel (out ++ 61 ∷ [])
unfolding pad
pad_more fuel out h = ground (arith, h)

module _ (out : Str) (whole : length out % 4 ≡ 0) where
  pad_three :
      (x y z : ℕ) → pad 4 (((out ++ x ∷ []) ++ y ∷ []) ++ z ∷ []) ≡ out ++ x ∷ y ∷ z ∷ 61 ∷ []
  pad_three x y z =
      let t = ((out ++ x ∷ []) ++ y ∷ []) ++ z ∷ [] in
      let size : length t ≡ length out + 3 = lengths x y z in
      let full : length (t ++ 61 ∷ []) % 4 ≡ 0 = omega (arith, length-append t (61 ∷ []), size) in
      pad_more 3 t (λ e. omega (arith, size)) ∙ pad_done 2 (t ++ 61 ∷ []) full ∙ simp append_assoc
    where
      lengths : (x y z : ℕ) → length (((out ++ x ∷ []) ++ y ∷ []) ++ z ∷ []) ≡ length out + 3
      lengths x y z = omega (
        arith,
        length-append ((out ++ x ∷ []) ++ y ∷ []) (z ∷ []),
        length-append (out ++ x ∷ []) (y ∷ []),
        length-append out (x ∷ []),
      )

  pad_two : (x y : ℕ) → pad 4 ((out ++ x ∷ []) ++ y ∷ []) ≡ out ++ x ∷ y ∷ 61 ∷ 61 ∷ []
  pad_two x y =
      let t = (out ++ x ∷ []) ++ y ∷ [] in
      let u = t ++ 61 ∷ [] in
      let size : length t ≡ length out + 2 =
        omega (arith, length-append (out ++ x ∷ []) (y ∷ []), length-append out (x ∷ [])) in
      let size' : length u ≡ length out + 3 = omega (arith, length-append t (61 ∷ []), size) in
      let full : length (u ++ 61 ∷ []) % 4 ≡ 0 = omega (arith, length-append u (61 ∷ []), size') in
      pad_more 3 t (λ e. omega (arith, size))
      ∙ pad_more 2 u (λ e. omega (arith, size'))
      ∙ pad_done 1 (u ++ 61 ∷ []) full
      ∙ simp append_assoc

-- The encoder goes on from a whole number of groups.
encode_from :
    (s : Str) (v : ℕ) (out : Str)
    → All (λ c. c < 256) s
    → length out % 4 ≡ 0
    → pad 4 (flush (encode_loop s (record { val = v; bits = 0; encoded = out }))) ≡ out ++ rfc4648 s
unfolding encode_loop
encode_from [] v out h whole = unfold flush in (pad_done 3 out whole ∙ simp append-nil)
encode_from (a ∷ []) v out h whole =
    ap (λ e. pad 4 (flush e)) (first_byte v out a h.0)
    ∙ ap (pad 4) (
        flush_two (v * 256 % 4294967296 + a) a (out ++ digit (a / 4) ∷ []) h.0 (omega (arith, h.0)))
    ∙ pad_two out whole (digit (a / 4)) (digit (a % 4 * 16))
encode_from (a ∷ b ∷ []) v out h whole =
    let v1 = v * 256 % 4294967296 + a in
    let out1 = out ++ digit (a / 4) ∷ [] in
    ap (λ e. pad 4 (flush (encode_loop (b ∷ []) e))) (first_byte v out a h.0)
    ∙ ap (λ e. pad 4 (flush e)) (second_byte v1 out1 a b h.0 h.1.0 (omega (arith, h.0)))
    ∙ ap (pad 4) (
        flush_four (v1 * 256 % 4294967296 + b) b (out1 ++ digit (a % 4 * 16 + b / 16) ∷ []) h.1.0
          (omega (arith, h.1.0)))
    ∙ pad_three out whole (digit (a / 4)) (digit (a % 4 * 16 + b / 16)) (digit (b % 16 * 4))
encode_from (a ∷ b ∷ c ∷ rest) v out h whole =
    let v1 = v * 256 % 4294967296 + a in
    let out1 = out ++ digit (a / 4) ∷ [] in
    let v2 = v1 * 256 % 4294967296 + b in
    let out2 = out1 ++ digit (a % 4 * 16 + b / 16) ∷ [] in
    let out3 = (out2 ++ digit (b % 16 * 4 + c / 64) ∷ []) ++ digit (c % 64) ∷ [] in
    let size : length out3 % 4 ≡ 0 = omega (
      arith,
      length-append (out2 ++ digit (b % 16 * 4 + c / 64) ∷ []) (digit (c % 64) ∷ []),
      length-append out2 (digit (b % 16 * 4 + c / 64) ∷ []),
      length-append out1 (digit (a % 4 * 16 + b / 16) ∷ []),
      length-append out (digit (a / 4) ∷ []),
    ) in
    ap (λ e. pad 4 (flush (encode_loop (b ∷ c ∷ rest) e))) (first_byte v out a h.0)
    ∙ ap (λ e. pad 4 (flush (encode_loop (c ∷ rest) e)))
        (second_byte v1 out1 a b h.0 h.1.0 (omega (arith, h.0)))
    ∙ ap (λ e. pad 4 (flush (encode_loop rest e)))
        (third_byte v2 out2 b c h.1.0 h.1.1.0 (omega (arith, h.1.0)))
    ∙ encode_from rest (v2 * 256 % 4294967296 + c) out3 h.1.1.1 size
    ∙ simp append_assoc

-- base64_encode agrees with RFC 4648 on every sequence of bytes, however long: the 32 bits of its
-- accumulator are enough, and its inner loop and its padding end.
pub base64_encode-rfc4648 : (s : Str) → All (λ c. c < 256) s → base64_encode s ≡ rfc4648 s
unfolding base64_encode
base64_encode-rfc4648 s h = encode_from s 0 [] h refl
