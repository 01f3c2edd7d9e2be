-- ===== src/Decimal.antt =====
-- std::to_string of a number that is not negative: request counters, method numbers, error codes.
-- The fuel is one more than the number, and each round divides it by ten.
use Prim.Native.Nat.{◌/◌, ◌%◌}
use roc_im_sdk.Prelude.{
  ℕ, zero, suc, ◌+◌, ◌-◌, ◌*◌, ◌≤◌, ◌<◌, ◌≡◌, refl, ◌∙◌, [], ◌∷◌, ◌++◌, Str, ltb, if◌then◌else◌,
  arith, All, Bool-cases, inl, inr, ap,
}

pub decimal_loop : ℕ → ℕ → Str
decimal_loop zero n = []
decimal_loop (suc fuel) n =
    let higher = decimal_loop fuel (n / 10) in
    if ltb n 10 then (48 + n) ∷ [] else higher ++ (48 + n % 10) ∷ []

unfoldable pub to_string : ℕ → Str
unfolding decimal_loop
to_string n = decimal_loop (suc n) n

-- The number that a row of digits stands for.
parse : ℕ → Str → ℕ
parse acc [] = acc
parse acc (d ∷ ds) = parse (acc * 10 + (d - 48)) ds

parse-append : (acc d : ℕ) (ds : Str) → parse acc (ds ++ d ∷ []) ≡ parse acc ds * 10 + (d - 48)
unfolding parse
parse-append acc d [] = refl
parse-append acc d (e ∷ ds) = parse-append (acc * 10 + (e - 48)) d ds

parse-decimal_loop : (fuel n : ℕ) → n < fuel → parse 0 (decimal_loop fuel n) ≡ n
unfolding decimal_loop
parse-decimal_loop zero n h = elim h [ ]
parse-decimal_loop (suc fuel) n h = elim (Bool-cases (ltb n 10)) [
  | inl small ↦ rw small (unfold parse in (omega arith))
  | inr large ↦ rw large (
      parse-append 0 (48 + n % 10) (decimal_loop fuel (n / 10))
      ∙ divided (parse-decimal_loop fuel (n / 10) (ground arith)))
]
  where
    divided :
        parse 0 (decimal_loop fuel (n / 10)) ≡ n / 10
        → parse 0 (decimal_loop fuel (n / 10)) * 10 + (48 + n % 10 - 48) ≡ n
    divided e = omega arith

pub to_string-injective : (n m : ℕ) → to_string n ≡ to_string m → n ≡ m
unfolding to_string
to_string-injective n m e = omega (
  arith,
  parse-decimal_loop (suc n) n (omega arith),
  parse-decimal_loop (suc m) m (omega arith),
  ap (parse 0) e,
)

-- A byte between '0' and '9'.
abbrev pub IsDigit : ℕ → Type 0
IsDigit c = (48 ≤ c) × (c ≤ 57)

All-append : (P : ℕ → Type 0) (xs ys : Str) → All P xs → All P ys → All P (xs ++ ys)
All-append P [] ys a b = b
All-append P (x ∷ xs) ys a b = (a.0, All-append P xs ys a.1 b)

decimal_loop-All-IsDigit : (fuel n : ℕ) → All IsDigit (decimal_loop fuel n)
unfolding decimal_loop
decimal_loop-All-IsDigit zero n = tt
decimal_loop-All-IsDigit (suc fuel) n = elim (Bool-cases (ltb n 10)) [
  | inl small ↦ rw small (ground arith)
  | inr large ↦ rw large (
      All-append IsDigit (decimal_loop fuel (n / 10)) _ (decimal_loop-All-IsDigit fuel (n / 10))
        (omega arith))
]

pub to_string-All-IsDigit : (n : ℕ) → All IsDigit (to_string n)
unfolding to_string
to_string-All-IsDigit n = decimal_loop-All-IsDigit (suc n) n
