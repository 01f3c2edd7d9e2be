-- ===== src/Message/RangeStore/Groups.antt =====
-- The groups of p_updateMessageRangeForMessage hold the messages, by conversation.
use roc_im_sdk.Prelude.{
  ◌≡◌, refl, true, List, [], ◌∷◌, ◌++◌, Option, none, some, Str, str_eq, ◌==◌, str_beq_iff, ap,
  arith, ℤ, Bool-cases, inl, inr, ◌⊎◌, ◌↔◌, In, subst,
}
use roc_im_sdk.UnorderedMap.{find, IsDistinct}
use roc_im_sdk.UnorderedMap.Laws.{find-assign, assign-IsDistinct}
use roc_im_sdk.Message.RangeStore.{group_loop, push_back, pushed}

abbrev pub InGroups : Str → ℤ → List (Str × List ℤ) → Type 0
InGroups d x [] = ⊥
InGroups d x ((c, seqs) ∷ groups) = (((c == d) ≡ true) × In x seqs) ⊎ InGroups d x groups

abbrev Found : ℤ → Option (List ℤ) → Type 0
Found x none = ⊥
Found x (some seqs) = In x seqs

InGroups-absent :
    (d : Str) (x : ℤ) (groups : List (Str × List ℤ)) → find d groups ≡ none → ¬ InGroups d x groups
unfolding find
InGroups-absent d x [] h g = g
InGroups-absent d x ((c, seqs) ∷ groups) h (inl (same, i)) = ground arith
InGroups-absent d x ((c, seqs) ∷ groups) h (inr g) = InGroups-absent d x groups (ground arith) g

InGroups-iff :
    (d : Str) (x : ℤ) (groups : List (Str × List ℤ))
    → IsDistinct groups
    → InGroups d x groups ↔ Found x (find d groups)
unfolding find
InGroups-iff d x [] u = (λ g. g, λ f. f)
InGroups-iff d x ((c, seqs) ∷ groups) u = elim (Bool-cases (c == d)) [
  | inl same ↦
      let gone : find d groups ≡ none =
        subst (λ i. find i groups ≡ none) ((str_beq_iff c d).0 same) u.0 in
      rw same (
        λ g. elim g [ inl (_, i) ↦ i | inr r ↦ absurd (InGroups-absent d x groups gone r) ],
        λ i. inl (refl, i),
      )
  | inr differ ↦
      let ih = InGroups-iff d x groups u.1 in
      rw differ (λ g. elim g [ inl (e, _) ↦ cc e | inr r ↦ ih.0 r ], λ f. inr (ih.1 f))
]

In-append_one : (x y : ℤ) (xs : List ℤ) → In x (xs ++ y ∷ []) ↔ (In x xs ⊎ (x ≡ y))
In-append_one x y [] = ground arith
In-append_one x y (z ∷ zs) = ground (arith, In-append_one x y zs)

In-pushed : (x n : ℤ) (o : Option (List ℤ)) → In x (pushed n o) ↔ (Found x o ⊎ (x ≡ n))
unfolding pushed
In-pushed x n none = ground arith
In-pushed x n (some seqs) = In-append_one x n seqs

Found-push_back :
    (c d : Str) (n x : ℤ) (groups : List (Str × List ℤ))
    → Found x (find d (push_back c n groups))
      ↔ (Found x (find d groups) ⊎ (((c == d) ≡ true) × (x ≡ n)))
unfolding push_back
Found-push_back c d n x groups =
    let law = find-assign c d (pushed n (find c groups)) groups in
    elim (Bool-cases (c == d)) [
      | inl same ↦
          let iff = In-pushed x n (find c groups) in
          let e : find c groups ≡ find d groups =
            ap (λ i. find i groups) ((str_beq_iff c d).0 same) in
          rw law (rw same (ground (arith, iff, e)))
      | inr differ ↦ rw law (rw differ (ground arith))
    ]

entry_iff :
    (c d : Str) (n x : ℤ)
    → ◌≡◌ {A = Option (Str × ℤ)} (some (d, x)) (some (c, n)) ↔ (((c == d) ≡ true) × (x ≡ n))
entry_iff c d n x = ground (arith, str_beq_iff c d)

group_loop-IsDistinct :
    (msgs : List (Option (Str × ℤ))) (groups : List (Str × List ℤ))
    → IsDistinct groups
    → IsDistinct (group_loop msgs groups)
unfolding group_loop push_back
group_loop-IsDistinct [] groups u = u
group_loop-IsDistinct (none ∷ msgs) groups u = group_loop-IsDistinct msgs groups u
group_loop-IsDistinct (some (c, n) ∷ msgs) groups u =
    group_loop-IsDistinct msgs (push_back c n groups)
      (assign-IsDistinct c (pushed n (find c groups)) groups u)

Found-group_loop :
    (d : Str) (x : ℤ) (msgs : List (Option (Str × ℤ))) (groups : List (Str × List ℤ))
    → Found x (find d (group_loop msgs groups)) ↔ (Found x (find d groups) ⊎ In (some (d, x)) msgs)
Found-group_loop d x [] groups = unfold group_loop in ground arith
Found-group_loop d x (none ∷ msgs) groups = skipped (Found-group_loop d x msgs groups)
  where
    skipped :
        Found x (find d (group_loop msgs groups))
          ↔ (Found x (find d groups) ⊎ In (some (d, x)) msgs)
        → Found x (find d (group_loop (none ∷ msgs) groups))
          ↔ (Found x (find d groups) ⊎ In (some (d, x)) (none ∷ msgs))
    skipped ih = unfold group_loop in ground (arith, ih)
Found-group_loop d x (some (c, n) ∷ msgs) groups =
    added (Found-group_loop d x msgs (push_back c n groups))
  where
    added :
        Found x (find d (group_loop msgs (push_back c n groups)))
          ↔ (Found x (find d (push_back c n groups)) ⊎ In (some (d, x)) msgs)
        → Found x (find d (group_loop (some (c, n) ∷ msgs) groups))
          ↔ (Found x (find d groups) ⊎ In (some (d, x)) (some (c, n) ∷ msgs))
    added ih =
        let first = Found-push_back c d n x groups in
        let entry = entry_iff c d n x in unfold group_loop in ground (arith, ih, first, entry)

-- Grouping loses and adds nothing.
pub InGroups_lem :
    (d : Str) (x : ℤ) (msgs : List (Option (Str × ℤ)))
    → InGroups d x (group_loop msgs []) ↔ In (some (d, x)) msgs
unfolding find
InGroups_lem d x msgs =
    let f = Found-group_loop d x msgs [] in
    let g = InGroups-iff d x (group_loop msgs []) (group_loop-IsDistinct msgs [] tt) in
    ground (arith, f, g)
