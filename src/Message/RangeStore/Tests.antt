-- ===== src/Message/RangeStore/Tests.antt =====
-- Runs and instances over the store of two association lists. The texts that stand in for JSON are
-- the numbers of the arrays in a row, with the sign as a number of its own.
use roc_im_sdk.Message.Fetch.Gaps.{new_fetch, Asks, asked, fetch_conv_message_list-Asks}
use roc_im_sdk.Message.Fetch.{Answer, Fetch, fetch_conv_message_list}
use roc_im_sdk.Prelude.{
  ◌≡◌, refl, ◌∙◌, sym, subst, ap, true, List, [], ◌∷◌, ◌++◌, Option, none, some, Str, codes, ℤ, pos,
  negsuc, str_eq, In, ◌⊎◌, ◌↔◌, ℕ, zero, suc, ◌≤ℤ◌, ◌<ℤ◌, arith, str_beq, ◌+ℤ◌,
}
use roc_im_sdk.UnorderedMap.{find, assign}
use roc_im_sdk.Storage.Instance.{lists, lists-Laws, nothing}
use roc_im_sdk.Ranges.{Range, generate_range, sort_seqs, insert_seq, generate_loop, merge_ranges}
use roc_im_sdk.Ranges.Cover.{Covers}
use roc_im_sdk.Ranges.Gaps.{last_end}
use roc_im_sdk.Message.RangeStore.{
  Json, array, Items, ranges_json, read_ranges, message_range_key, Ranges, update_message_range,
  message_range,
}
use roc_im_sdk.Message.RangeStore.Update.{IsCoherent, Holds, or_nothing, update_message_range_exact}
use roc_im_sdk.Message.RangeStore.Codec.{read_ranges-ranges_json}

abbrev number_text : ℤ → Str
number_text (pos n) = 0 ∷ n ∷ []
number_text (negsuc n) = 1 ∷ n ∷ []

abbrev text_of : List Range → Str
text_of [] = []
text_of ((a, b) ∷ rs) = number_text a ++ (number_text b ++ text_of rs)

abbrev number : ℕ → ℕ → ℤ
number zero n = pos n
number (suc _) n = negsuc n

abbrev ranges_of : Str → List Range
ranges_of (s ∷ n ∷ t ∷ m ∷ rest) = (number s n, number t m) ∷ ranges_of rest
ranges_of [] = []
ranges_of (_ ∷ []) = []
ranges_of (_ ∷ _ ∷ []) = []
ranges_of (_ ∷ _ ∷ _ ∷ []) = []

ranges_of-text_of : (rs : List Range) → ranges_of (text_of rs) ≡ rs
ranges_of-text_of [] = refl
ranges_of-text_of ((pos a, pos b) ∷ rs) = ap (λ t. (pos a, pos b) ∷ t) (ranges_of-text_of rs)
ranges_of-text_of ((pos a, negsuc b) ∷ rs) = ap (λ t. (pos a, negsuc b) ∷ t) (ranges_of-text_of rs)
ranges_of-text_of ((negsuc a, pos b) ∷ rs) = ap (λ t. (negsuc a, pos b) ∷ t) (ranges_of-text_of rs)
ranges_of-text_of ((negsuc a, negsuc b) ∷ rs) =
    ap (λ t. (negsuc a, negsuc b) ∷ t) (ranges_of-text_of rs)

abbrev parse : Str → Option Json
parse text = some (array (ranges_json (ranges_of text)))

abbrev serialize : Items → Str
serialize items = text_of (read_ranges items)

read_back : (rs : List Range) → parse (serialize (ranges_json rs)) ≡ some (array (ranges_json rs))
read_back rs =
    ap (λ t. some (array (ranges_json (ranges_of (text_of t))))) (read_ranges-ranges_json rs)
    ∙ ap (λ t. some (array (ranges_json t))) (ranges_of-text_of rs)

abbrev me : Str
me = codes "u1"

abbrev conv : Str
conv = codes "0:1:u1:u2"

abbrev State : Type 0
State = Ranges lists parse serialize me

abbrev fresh : State
fresh = record { cache = []; store = nothing }

fresh-IsCoherent : IsCoherent lists lists-Laws parse serialize read_back me fresh
unfolding message_range find
fresh-IsCoherent = record { readable = λ d. ([], refl, tt); cached = λ d r e. cc e }

-- Numbers 1, 2 and 5 of one conversation, and a message that is not there.
abbrev batch : List (Option (Str × ℤ))
batch = some (conv, pos 2) ∷ none ∷ some (conv, pos 5) ∷ some (conv, pos 1) ∷ []

abbrev stored : State
stored = record {
  cache = (conv, (pos 1, pos 2) ∷ (pos 5, pos 5) ∷ []) ∷ [];
  store = record {
    ints = [];
    strings = (message_range_key me conv, text_of ((pos 1, pos 2) ∷ (pos 5, pos 5) ∷ [])) ∷ [];
  };
}

batch_run : update_message_range lists parse serialize me true batch fresh ≡ some stored
unfolding update_message_range message_range find assign str_beq ranges_json message_range_key
    generate_range sort_seqs insert_seq generate_loop merge_ranges ◌+ℤ◌ read_ranges
batch_run = refl

update_message_range_exact_example :
    (s' : State) × (update_message_range lists parse serialize me true batch fresh ≡ some s')
    × IsCoherent lists lists-Laws parse serialize read_back me s'
    × ((d : Str) (x : ℤ)
        → Holds lists lists-Laws parse serialize read_back me d x s' ↔ (
            Holds lists lists-Laws parse serialize read_back me d x fresh ⊎ In (some (d, x)) batch))
update_message_range_exact_example =
    update_message_range_exact lists lists-Laws parse serialize read_back me batch fresh
      (λ k t u. refl) fresh-IsCoherent

some_eq : {x y : State} → some x ≡ some y → x ≡ y
some_eq e = cc e

stored-IsCoherent : IsCoherent lists lists-Laws parse serialize read_back me stored
stored-IsCoherent =
    let (s', e, w, _) =
      update_message_range_exact lists lists-Laws parse serialize read_back me batch fresh
        (λ k t u. refl) fresh-IsCoherent in
    subst (λ s. IsCoherent lists lists-Laws parse serialize read_back me s)
      (some_eq (sym e ∙ batch_run)) w

-- A server that answers no request.
abbrev silent : ℕ → Option Answer
silent n = none

fetch_conv_message_list-Asks_example :
    (gaps : List Range) × (f : Fetch) × (s' : State) × (fetch_conv_message_list lists parse
        serialize me conv silent new_fetch stored
      ≡ some (f, s'))
    × Asks me conv gaps [] f.sent
    × ((x : ℤ)
        → Covers x (asked f.sent) ↔ (
            (pos 0 <ℤ x)
            × (x
                ≤ℤ last_end
                    (pos 0)
                    (or_nothing (message_range lists parse serialize me conv stored.store)))
            × (¬ Holds lists lists-Laws parse serialize read_back me conv x stored)))
unfolding message_range find str_beq message_range_key read_ranges ranges_json
fetch_conv_message_list-Asks_example =
    fetch_conv_message_list-Asks lists lists-Laws parse serialize read_back me conv silent stored
      stored-IsCoherent (omega arith)
