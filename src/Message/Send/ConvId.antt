-- ===== src/Message/Send/ConvId.antt =====
-- The ids of single conversations, made and taken apart.
use roc_im_sdk.Prelude.{
  ◌≡◌, refl, ◌∙◌, ◌≢◌, true, false, [], ◌∷◌, ◌++◌, some, Str, All, if◌then◌else◌, ◌==◌, nat_eq,
  arith, Bool-cases, inl, inr, ap,
}
use roc_im_sdk.Message.Send.{
  str_ltb, prefix, generate_single_conv_id, split_colon, check_users, parse_single_conv_id,
}

-- A user id with no colon in it.
abbrev pub IsPlain : Str → Type 0
IsPlain = All (λ c. (c == 58) ≡ false)

str_ltb_antisym : (s t : Str) → str_ltb s t ≡ false → str_ltb t s ≡ false → s ≡ t
unfolding str_ltb
str_ltb_antisym [] [] h k = refl
str_ltb_antisym [] (b ∷ t) h k = cc h
str_ltb_antisym (a ∷ s) [] h k = cc k
str_ltb_antisym (a ∷ s) (b ∷ t) h k = ground (arith, str_ltb_antisym s t)

str_ltb_asym : (s t : Str) → str_ltb s t ≡ true → str_ltb t s ≡ false
unfolding str_ltb
str_ltb_asym [] [] h = refl
str_ltb_asym [] (b ∷ t) h = refl
str_ltb_asym (a ∷ s) [] h = cc h
str_ltb_asym (a ∷ s) (b ∷ t) h = ground (arith, str_ltb_asym s t)

-- The id of a conversation does not depend on who of the two makes it.
pub generate_symm : (u v : Str) → generate_single_conv_id u v ≡ generate_single_conv_id v u
unfolding generate_single_conv_id
generate_symm u v = elim (Bool-cases (str_ltb u v)) [
  | inl less ↦ rw (less, str_ltb_asym u v less)
  | inr more ↦ elim (Bool-cases (str_ltb v u)) [
    | inl less ↦ rw (more, less)
    | inr equal ↦
        let e = str_ltb_antisym u v more equal in
        rw (more, equal) (λ i. prefix ++ (str_ltb_antisym v u equal more i ++ 58 ∷ e i))
  ]
]

split_colon_lem : (a b : Str) → IsPlain a → split_colon (a ++ 58 ∷ b) ≡ some (a, b)
unfolding split_colon
split_colon_lem [] b h = refl
split_colon_lem (c ∷ a) b h = rw h.0 (rw (split_colon_lem a b h.1))

parse_users :
    (a b : Str)
    → IsPlain a
    → a ≢ []
    → b ≢ []
    → parse_single_conv_id (prefix ++ (a ++ 58 ∷ b)) ≡ (a, b)
unfolding parse_single_conv_id
parse_users [] b h p q = absurd (p refl)
parse_users (c ∷ a) [] h p q = absurd (q refl)
parse_users (c ∷ a) (d ∷ b) h p q =
    ap check_users (split_colon_lem (c ∷ a) (d ∷ b) h) ∙ unfold check_users in refl

-- For two user ids that are not empty and have no colon in them, parsing the id that the generator
-- makes of them gives back the two ids, the smaller one first.
pub parse-generate :
    (u v : Str)
    → IsPlain u
    → IsPlain v
    → u ≢ []
    → v ≢ []
    → parse_single_conv_id (generate_single_conv_id u v) ≡ (if str_ltb u v then (u, v) else (v, u))
unfolding generate_single_conv_id
parse-generate u v hu hv pu pv = elim (Bool-cases (str_ltb u v)) [
  | inl less ↦ rw less (parse_users u v hu pu pv)
  | inr more ↦ rw more (parse_users v u hv pv pu)
]
