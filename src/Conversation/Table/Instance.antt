-- ===== src/Conversation/Table/Instance.antt =====
-- A table that meets the laws: the rows of each id. It serves the instances of theorems; it knows no
-- order, so that an ordered read fails.
use roc_im_sdk.Prelude.{
  ◌≡◌, refl, Bool, true, false, List, [], ◌∷◌, map, Option, none, some, Str, ◌==◌, str_eq,
  if◌then◌else◌, arith,
}
use roc_im_sdk.Conversation.Table.{ConversationOrm, ConvDatabase, ConvLaws}

abbrev pub Rows : Type 0
Rows = Str → List ConversationOrm

abbrev head : List ConversationOrm → Option ConversationOrm
head [] = none
head (r ∷ _) = some r

abbrev commit : {T : Type 0} → T → Bool × T → Bool × T
commit t (true, t') = (true, t')
commit t (false, _) = (false, t)

abbrev pub rows_db : ConvDatabase
rows_db = record {
  Table = Rows;
  update_object = λ f k t. (true, λ j. if k == j then map f (t j) else t j);
  insert_or_replace_object = λ r t. (true, λ j. if r.conversation_id == j then r ∷ [] else t j);
  run_transaction = λ body t. commit t (body t);
  get_all_objects = λ k t. some (t k);
  get_first = λ k t. head (t k);
  get_ordered = λ condition limit t. none;
}

some_if :
    (b : Bool) (xs ys : List ConversationOrm)
    → some (if b then xs else ys) ≡ (if b then some xs else some ys)
some_if true xs ys = refl
some_if false xs ys = refl

commit_lem :
    (j : Str) (t : Rows) (r : Bool × Rows)
    → (commit t r).0 ≡ true
    → (r.0 ≡ true) × (some ((commit t r).1 j) ≡ some (r.1 j))
commit_lem j t (true, _) h = (refl, refl)
commit_lem j t (false, _) h = cc h

rollback_lem :
    (j : Str) (t : Rows) (r : Bool × Rows)
    → (commit t r).0 ≡ false
    → some ((commit t r).1 j) ≡ some (t j)
rollback_lem j t (true, _) h = cc h
rollback_lem j t (false, _) h = refl

first_lem :
    (xs rows : List ConversationOrm) (r : ConversationOrm)
    → some xs ≡ some (r ∷ rows)
    → head xs ≡ some r
first_lem [] rows r h = cc h
first_lem (x ∷ xs) rows r h = ground arith

pub rows-ConvLaws : ConvLaws rows_db
rows-ConvLaws = record {
  get_update = λ f k j t id. some_if (k == j) (map f (t j)) (t j);
  get_insert = λ r j t. some_if (r.conversation_id == j) (r ∷ []) (t j);
  first_row = λ k r rows t h. first_lem (t k) rows r h;
  get_commit = λ body j t h. commit_lem j t (body t) h;
  get_rollback = λ body j t h. rollback_lem j t (body t) h;
}
