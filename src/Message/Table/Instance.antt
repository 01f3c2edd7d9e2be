-- ===== src/Message/Table/Instance.antt =====
-- A table that meets the laws: an association list whose rows take the id of their entry. It serves
-- the instances of theorems; an ordered read keeps the order of the list.
use roc_im_sdk.Prelude.{
  ◌≡◌, refl, sym, ap, ◌∙◌, Bool, true, false, List, [], ◌∷◌, map, Option, none, some, Str, ◌==◌,
  str_eq, str_beq_iff, if◌then◌else◌, arith, All, Bool-cases, inl, inr, Option-cases,
}
use roc_im_sdk.UnorderedMap.{find, assign, keys}
use roc_im_sdk.UnorderedMap.Laws.{find-assign}
use roc_im_sdk.Message.Send.{MessageOrm}
use roc_im_sdk.Message.Table.{Database, DatabaseLaws}

abbrev pub Entries : Type 0
Entries = List (Str × MessageOrm)

abbrev pub named : Str → Option MessageOrm → List MessageOrm
named k none = []
named k (some r) = record r { client_msg_id = k } ∷ []

abbrev pub rows_of : Str → Entries → List MessageOrm
rows_of k t = named k (find k t)

abbrev update_entries : (MessageOrm → MessageOrm) → Str → Entries → Entries
update_entries f k [] = []
update_entries f k ((j, r) ∷ t) =
    let rest = update_entries f k t in
    if j == k then (j, f (record r { client_msg_id = j })) ∷ rest else (j, r) ∷ rest

abbrev keep : (MessageOrm → Bool) → List MessageOrm → List MessageOrm → List MessageOrm
keep condition [] rest = rest
keep condition (r ∷ _) rest = if condition r then r ∷ rest else rest

abbrev page : (MessageOrm → Bool) → Entries → List Str → List MessageOrm
page condition t [] = []
page condition t (k ∷ ks) = keep condition (rows_of k t) (page condition t ks)

abbrev commit : {T : Type 0} → T → Bool × T → Bool × T
commit t (true, t') = (true, t')
commit t (false, _) = (false, t)

abbrev pub entries_db : Database
entries_db = record {
  Table = Entries;
  update_object = λ f k t. (true, update_entries f k t);
  insert_or_replace_object = λ r t. (true, assign r.client_msg_id r t);
  run_transaction = λ body t. commit t (body t);
  get_all_objects = λ k t. some (rows_of k t);
  get_ordered = λ condition limit t. some (page condition t (keys t));
}

name_lem : (r : MessageOrm) (k : Str) → r.client_msg_id ≡ k → record r { client_msg_id = k } ≡ r
name_lem r k h = λ i. record r { client_msg_id = sym h i }

find-update_entries :
    (f : MessageOrm → MessageOrm) (k j : Str) (t : Entries)
    → ((r : MessageOrm) → (f r).client_msg_id ≡ r.client_msg_id)
    → rows_of j (update_entries f k t) ≡ (if k == j then map f (rows_of j t) else rows_of j t)
unfolding find
find-update_entries f k j [] id = ground arith
find-update_entries f k j ((i, r) ∷ t) id = ground (
  arith,
  find-update_entries f k j t id,
  name_lem (f (record r { client_msg_id = i })) i (id (record r { client_msg_id = i })),
  str_beq_iff i k,
  str_beq_iff i j,
  str_beq_iff k j,
)

rows_of-assign :
    (r : MessageOrm) (j : Str) (t : Entries)
    → rows_of j (assign r.client_msg_id r t)
      ≡ (if r.client_msg_id == j then r ∷ [] else rows_of j t)
rows_of-assign r j t = elim (Bool-cases (r.client_msg_id == j)) [
  | inl same ↦
      ap (named j) (find-assign r.client_msg_id j r t)
      ∙ rw same (ap (λ x. x ∷ []) (name_lem r j ((str_beq_iff r.client_msg_id j).0 same)))
  | inr differ ↦ ap (named j) (find-assign r.client_msg_id j r t) ∙ rw differ refl
]

rows_of_id :
    (k : Str) (r : MessageOrm) (rest : List MessageOrm) (t : Entries)
    → rows_of k t ≡ r ∷ rest
    → r.client_msg_id ≡ k
rows_of_id k r rest t h = elim (Option-cases (find k t)) [
  | inl miss ↦ ground (arith, miss)
  | inr (x, hit) ↦
      let first : record x { client_msg_id = k } ≡ r = ground (arith, hit) in
      sym (ap (λ y. y.client_msg_id) first)
]

page-All :
    (condition : MessageOrm → Bool) (t : Entries) (ks : List Str)
    → All
        (λ r. (condition r ≡ true) × (some (rows_of r.client_msg_id t) ≡ some (r ∷ [])))
        (page condition t ks)
page-All condition t [] = tt
page-All condition t (k ∷ ks) = elim (Option-cases (find k t)) [
  | inl miss ↦ rw miss (page-All condition t ks)
  | inr (x, hit) ↦
      let r : MessageOrm = record x { client_msg_id = k } in
      elim (Bool-cases (condition r)) [
        | inl meets ↦ rw hit (rw meets ((meets, rw hit refl), page-All condition t ks))
        | inr fails ↦ rw hit (rw fails (page-All condition t ks))
      ]
]

get_commit :
    (body : Entries → Bool × Entries) (j : Str) (t : Entries)
    → (commit t (body t)).0 ≡ true
    → ((body t).0 ≡ true) × (some (rows_of j (commit t (body t)).1) ≡ some (rows_of j (body t).1))
get_commit body j t = after (body t)
  where
    after :
        (r : Bool × Entries)
        → (commit t r).0 ≡ true
        → (r.0 ≡ true) × (some (rows_of j (commit t r).1) ≡ some (rows_of j r.1))
    after (true, _) h = (refl, refl)
    after (false, _) h = cc h

get_rollback :
    (body : Entries → Bool × Entries) (j : Str) (t : Entries)
    → (commit t (body t)).0 ≡ false
    → some (rows_of j (commit t (body t)).1) ≡ some (rows_of j t)
get_rollback body j t = after (body t)
  where
    after :
        (r : Bool × Entries)
        → (commit t r).0 ≡ false
        → some (rows_of j (commit t r).1) ≡ some (rows_of j t)
    after (true, _) h = cc h
    after (false, _) h = refl

pub entries-DatabaseLaws : DatabaseLaws entries_db
entries-DatabaseLaws = record {
  get_update = λ f k j t id. ground (arith, find-update_entries f k j t id);
  get_id = λ k r rows t h. rows_of_id k r rows t (ground arith);
  get_insert = λ r j t. ground (arith, rows_of-assign r j t);
  get_commit = get_commit;
  get_rollback = get_rollback;
  ordered_rows = λ condition limit t rows h.
      let e : page condition t (keys t) ≡ rows = ground arith in
      rw (← e) (page-All condition t (keys t));
}
