-- ===== src/Network/Connection/Frames.antt =====
-- The split of a buffer into frames.
use roc_im_sdk.Prelude.{
  ℕ, zero, suc, ◌<◌, ◌≡◌, refl, ◌∙◌, Bool, true, false, List, [], ◌∷◌, ◌++◌, none, some, Str,
  length, length-append, All, ◌==◌, nat_eq, arith,
}
use roc_im_sdk.Network.Message.{Expected, FrontierMessage}
use roc_im_sdk.Network.Connection.{
  Link, find_newline, handle_frame, data_loop, handle_data_received,
}

-- A text with no newline in it.
abbrev pub IsLine : Str → Type 0
IsLine = All (λ c. (c == 10) ≡ false)

-- The lines as one buffer: each but the last ends with a newline.
pub join_lines : List Str → Str → Str
join_lines [] last = last
join_lines (line ∷ lines) last = line ++ 10 ∷ join_lines lines last

find_newline_last : (line : Str) → IsLine line → find_newline line ≡ none
unfolding find_newline
find_newline_last [] h = refl
find_newline_last (c ∷ cs) h = ground (arith, find_newline_last cs)

find_newline_line :
    (line rest : Str) → IsLine line → find_newline (line ++ 10 ∷ rest) ≡ some (line, rest)
unfolding find_newline
find_newline_line [] rest h = refl
find_newline_line (c ∷ cs) rest h = rw h.0 (rw (find_newline_line cs rest h.1))

module _ (alive : Bool) (parse : Str → Expected FrontierMessage) where
  -- Every line goes to handleMessageFrame, if it is not empty; in order.
  pub handle_lines : List Str → Str → Link → Link
  unfolding handle_frame
  handle_lines [] last l = handle_frame alive parse last l
  handle_lines (line ∷ lines) last l = handle_lines lines last (handle_frame alive parse line l)

  data_loop_step :
      (fuel : ℕ) (line rest : Str) (l : Link)
      → IsLine line
      → data_loop alive parse (suc fuel) (line ++ 10 ∷ rest) l
        ≡ data_loop alive parse fuel rest (handle_frame alive parse line l)
  unfolding data_loop
  data_loop_step fuel [] rest l h = rw (find_newline_line [] rest h, data_loop)
  data_loop_step fuel (c ∷ cs) rest l h = rw (find_newline_line (c ∷ cs) rest h, data_loop)

  data_loop_lines :
      (fuel : ℕ) (lines : List Str) (last : Str) (l : Link)
      → length (join_lines lines last) < fuel
      → All IsLine lines
      → IsLine last
      → data_loop alive parse fuel (join_lines lines last) l ≡ handle_lines lines last l
  unfolding join_lines handle_lines
  data_loop_lines zero lines last l enough h k = elim enough [ ]
  data_loop_lines (suc fuel) [] [] l enough h k = unfold data_loop in unfold handle_frame in refl
  data_loop_lines (suc fuel) [] (c ∷ cs) l enough h k =
      unfold data_loop in (rw (find_newline_last (c ∷ cs) k, data_loop))
  data_loop_lines (suc fuel) (line ∷ lines) last l enough h k =
      data_loop_step fuel line (join_lines lines last) l h.0
      ∙ data_loop_lines fuel lines last (handle_frame alive parse line l)
          (omega (arith, length-append {0} line (10 ∷ join_lines lines last))) h.1 k

-- While SDKRoot is there, handleDataReceived takes any buffer apart at its newlines, and gives the
-- lines that are not empty to handleMessageFrame, the last line with or without its newline, all
-- of them and in order.
pub handle_data_received_lines :
    (parse : Str → Expected FrontierMessage) (lines : List Str) (last : Str) (l : Link)
    → All IsLine lines
    → IsLine last
    → handle_data_received true parse (join_lines lines last) l
      ≡ handle_lines true parse lines last l
unfolding handle_data_received
handle_data_received_lines parse lines last l h k =
    data_loop_lines true parse (suc (length (join_lines lines last))) lines last l (omega arith) h k
