-- ===== src/Message/JsonText/Utf8.antt =====
-- The byte strings that are UTF-8 (RFC 3629), which are the texts that boost::json reads, and what
-- the code's cut of a text at its first NUL makes of them.
use roc_im_sdk.Prelude.{
  ℕ, suc, zero, ◌≡◌, refl, ◌≤◌, Bool, true, false, ◌&&◌, [], ◌∷◌, Option, none, some, Str, ltb, leb,
  if◌then◌else◌, arith, Bool-cases, Option-cases, inl, inr, ◌==◌, nat_eq,
}
use roc_im_sdk.Message.JsonText.{c_str}

-- After a first byte: the bounds of the next byte, and how many bytes the character still has.
abbrev pub lead : ℕ → Option (ℕ × ℕ × ℕ)
lead c =
    if ltb c 128
    then some (128, 191, 0)
    else if ltb c 194
    then none
    else if ltb c 224
    then some (128, 191, 1)
    else if ltb c 225
    then some (160, 191, 2)
    else if ltb c 237
    then some (128, 191, 2)
    else if ltb c 238
    then some (128, 159, 2)
    else if ltb c 240
    then some (128, 191, 2)
    else if ltb c 241
    then some (144, 191, 3)
    else if ltb c 244
    then some (128, 191, 3)
    else if ltb c 245
    then some (128, 143, 3)
    else none

-- The bytes are the rest of a character, with that many bytes, the next one in the bounds, and
-- characters after it.
abbrev pub utf8 : ℕ → ℕ → ℕ → Str → Bool
utf8 low high zero [] = true
utf8 low high (suc n) [] = false
utf8 low high zero (c ∷ cs) = elim (lead c) [ none ↦ false | some s ↦ utf8 s.0 s.1 s.2 cs ]
utf8 low high (suc n) (c ∷ cs) = leb low c && leb c high && utf8 128 191 n cs

abbrev pub IsUtf8 : Str → Type 0
IsUtf8 s = utf8 128 191 0 s ≡ true

lead-low : (c low high n : ℕ) → lead c ≡ some (low, high, n) → 128 ≤ low
lead-low c low high n e = ground (arith, e)

utf8-c_str :
    (low high n : ℕ) (s : Str)
    → 128 ≤ low
    → utf8 low high n s ≡ true
    → utf8 low high n (c_str s) ≡ true
unfolding c_str
utf8-c_str low high zero [] b h = refl
utf8-c_str low high (suc n) [] b h = h
utf8-c_str low high zero (c ∷ cs) b h = elim (Bool-cases (c == 0)) [
  | inl nul ↦ rw nul refl
  | inr other ↦ rw other (elim (Option-cases (lead c)) [
    | inl none_e ↦ absurd (ground (arith, none_e, h))
    | inr (s, e) ↦
        let ih = utf8-c_str s.0 s.1 s.2 cs (lead-low c s.0 s.1 s.2 e) in ground (arith, e, h, ih)
  ])
]
utf8-c_str low high (suc n) (c ∷ cs) b h =
    let ih = utf8-c_str 128 191 n cs (omega arith) in ground (arith, h, ih)

-- A text that is cut at its first NUL is UTF-8 where the whole text is.
pub IsUtf8-c_str : (s : Str) → IsUtf8 s → IsUtf8 (c_str s)
IsUtf8-c_str s h = utf8-c_str 128 191 0 s (omega arith) h
