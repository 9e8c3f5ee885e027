-- ===== src/TimerWheel.antt =====
-- class TimerWheel of ydx_timer_wheel.h and ydx_timer_wheel.cpp: a ring of buckets, each a list of
-- shared pointers to nodes. A node is destroyed, and so calls its callback, once no bucket holds it.
-- The ring is boost's circular buffer, an interface here.
pub mod Count
pub mod Deadline
pub mod Simulation
pub mod Expiry
mod Tests
use network_ydxlib.Base.{
  ℕ, zero, suc, ◌+◌, ◌≡◌, Bool, true, false, ◌||◌, List, [], ◌∷◌, ◌++◌, ◌==◌, if◌then◌else◌, drop,
}
use network_ydxlib.Base.Int.{ℤ, pos, negsuc}
use network_ydxlib.Timestamp.{Timestamp, time_difference_micro}

-- A full circular buffer of buckets: all its elements, the oldest first, `push_back(Bucket())`, and
-- `back().push_back(node)`.
pub record Circular : Type 1 where
  pub Buffer : Type 0
  pub elements : Buffer → List (List ℕ)
  pub push_empty : Buffer → Buffer
  pub put_back : ℕ → Buffer → Buffer

abbrev pub on_last : ℕ → List (List ℕ) → List (List ℕ)
on_last n [] = []
on_last n (x ∷ []) = (x ++ (n ∷ [])) ∷ []
on_last n (x ∷ y ∷ xs) = x ∷ on_last n (y ∷ xs)

-- What boost documents of a full circular buffer: a push drops the oldest element.
pub record IsCircular (C : Circular) : Type 0 where
  pub elements-push_empty :
      (b : C.Buffer) → C.elements (C.push_empty b) ≡ drop 1 (C.elements b) ++ ([] ∷ [])
  pub elements-put_back :
      (n : ℕ) (b : C.Buffer) → C.elements (C.put_back n b) ≡ on_last n (C.elements b)

-- Nodes have numbers; `fired` are those destroyed so far, the first one first.
pub record TimerWheel (C : Circular) : Type 0 where
  pub node_circle_buf : C.Buffer
  pub bucket_num : ℕ
  pub time : Timestamp
  pub fired : List ℕ

abbrev pub holds : ℕ → List ℕ → Bool
holds n [] = false
holds n (x ∷ xs) = (n == x) || holds n xs

abbrev pub is_held : ℕ → List (List ℕ) → Bool
is_held n [] = false
is_held n (x ∷ xs) = holds n x || is_held n xs

-- The nodes of a bucket whose last pointers go with it, while the buckets `others` stay.
abbrev pub release : List ℕ → (others : List (List ℕ)) → List ℕ
release [] others = []
release (n ∷ ns) others =
    if holds n ns || is_held n others then release ns others else n ∷ release ns others

abbrev pub oldest : List (List ℕ) → List ℕ
oldest [] = []
oldest (x ∷ xs) = x

module _ {C : Circular} where
  unfoldable pub push_empty : TimerWheel C → TimerWheel C
  push_empty w =
      let all = C.elements w.node_circle_buf in
      record w {
        node_circle_buf = C.push_empty w.node_circle_buf;
        fired = w.fired ++ release (oldest all) (drop 1 all);
      }

  unfoldable pub push_empties : ℕ → TimerWheel C → TimerWheel C
  push_empties zero w = w
  push_empties (suc n) w = push_empties n (push_empty w)

  unfoldable pub put_back : ℕ → TimerWheel C → TimerWheel C
  put_back n w = record w { node_circle_buf = C.put_back n w.node_circle_buf }

  -- What follows the computation of `diff_time`; the node of a call that fails is destroyed with it.
  unfoldable pub add_after : (diff_time : ℤ) → Timestamp → ℕ → TimerWheel C → Bool × TimerWheel C
  unfolding put_back
  add_after (negsuc k) time n w = (false, record w { fired = w.fired ++ (n ∷ []) })
  add_after (pos zero) time n w = (true, put_back n w)
  add_after (pos (suc k)) time n w =
      (true, put_back n (push_empties (suc k) (record w { time = time })))

  unfoldable pub add_node : Timestamp → ℕ → TimerWheel C → Bool × TimerWheel C
  unfolding add_after
  add_node time n w = add_after (time_difference_micro time w.time) time n w

  -- The weak pointer of a node that no bucket holds locks to nothing.
  unfoldable pub refresh_node : ℕ → TimerWheel C → TimerWheel C
  unfolding put_back
  refresh_node n w = if is_held n (C.elements w.node_circle_buf) then put_back n w else w
