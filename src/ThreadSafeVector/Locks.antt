-- ===== src/ThreadSafeVector/Locks.antt =====
-- The two mutexes that swap and the move assignment lock, one after the other: their own first.
use roc_im_sdk.Prelude.{◌≡◌, refl, Bool, true, false, List, [], ◌∷◌, if◌then◌else◌}

-- One thread calls an operation of the left vector on the right one, the other thread one of the
-- right vector on the left one.
pub data Thread : Type 0 where
  on_left on_right : Thread

-- Where a thread is in its call.
pub data Point : Type 0 where
  outside one_locked both_locked returned : Point

-- swap, or operator= of an rvalue.
pub data Call : Type 0 where
  swaps moves : Call

pub record Pair (A : Type 0) : Type 0 where
  pub left : List A
  pub right : List A
  pub left_locked : Bool
  pub right_locked : Bool
  pub left_point : Point
  pub right_point : Point

module _ {A : Type 0} where
  -- data_.swap(other.data_), and data_ = std::move(other.data_).
  unfoldable pub act_left : Call → Pair A → Pair A
  act_left swaps p = record p { left = p.right; right = p.left }
  act_left moves p = record p { left = p.right; right = [] }

  unfoldable pub act_right : Call → Pair A → Pair A
  act_right swaps p = record p { left = p.right; right = p.left }
  act_right moves p = record p { right = p.left; left = [] }

  -- The next step of the call on the left vector; a mutex that is taken holds it up.
  unfoldable pub left_step : Call → Point → Pair A → Pair A
  unfolding act_left
  left_step c outside p =
      if p.left_locked then p else record p { left_locked = true; left_point = one_locked }
  left_step c one_locked p =
      if p.right_locked then p else record p { right_locked = true; left_point = both_locked }
  left_step c both_locked p = record (act_left c p) {
    left_locked = false;
    right_locked = false;
    left_point = returned;
  }
  left_step c returned p = p

  unfoldable pub right_step : Call → Point → Pair A → Pair A
  unfolding act_right
  right_step c outside p =
      if p.right_locked then p else record p { right_locked = true; right_point = one_locked }
  right_step c one_locked p =
      if p.left_locked then p else record p { left_locked = true; right_point = both_locked }
  right_step c both_locked p = record (act_right c p) {
    left_locked = false;
    right_locked = false;
    right_point = returned;
  }
  right_step c returned p = p

  unfoldable pub step : Call → Call → Thread → Pair A → Pair A
  unfolding left_step right_step
  step c c' on_left p = left_step c p.left_point p
  step c c' on_right p = right_step c' p.right_point p

  unfoldable pub run : Call → Call → List Thread → Pair A → Pair A
  unfolding step
  run c c' [] p = p
  run c c' (t ∷ ts) p = run c c' ts (step c c' t p)

  abbrev pub initial : List A → List A → Pair A
  initial xs ys = record {
    left = xs;
    right = ys;
    left_locked = false;
    right_locked = false;
    left_point = outside;
    right_point = outside;
  }

  abbrev pub stuck : List A → List A → Pair A
  stuck xs ys = record {
    left = xs;
    right = ys;
    left_locked = true;
    right_locked = true;
    left_point = one_locked;
    right_point = one_locked;
  }

  stuck_stays :
      (c c' : Call) (ts : List Thread) (xs ys : List A) → run c c' ts (stuck xs ys) ≡ stuck xs ys
  unfolding run
  stuck_stays c c' [] xs ys = refl
  stuck_stays c c' (on_left ∷ ts) xs ys = stuck_stays c c' ts xs ys
  stuck_stays c c' (on_right ∷ ts) xs ys = stuck_stays c c' ts xs ys

  -- A swap or a move assignment on each of two vectors with the other one, where each of the two
  -- threads takes its first mutex before the other takes its second: whatever is scheduled next,
  -- neither call returns, both mutexes stay locked, and both vectors stay as they were.
  pub run-stuck :
      (c c' : Call) (ts : List Thread) (xs ys : List A)
      → run c c' (on_left ∷ on_right ∷ ts) (initial xs ys) ≡ stuck xs ys
  unfolding run
  run-stuck c c' ts xs ys = stuck_stays c c' ts xs ys
