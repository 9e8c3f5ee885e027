-- ===== src/Threads.antt =====
-- class Thread of thread.h and thread.cpp, AtomicInteger of ydx_atomic.h, and CurrentThread of
-- ydx_current_thread.h and ydx_current_thread.cpp. A handle of pthread_create is a number; what
-- pthread_create and gettid give is an argument. Strings are lists of bytes.
pub mod Release
pub mod Atomic
mod Tests
use network_ydxlib.Base.{
  ℕ, ◌+◌, ◌-◌, ◌%◌, ◌^◌, Bool, true, false, ◌&&◌, not, Option, none, some, List, [], ◌∷◌, ◌++◌,
  ◌==◌, if◌then◌else◌,
}

-- The bit pattern of an integer of `w` bits; `x` is that of what is added.
unfoldable pub get_and_add : (w x value : ℕ) → ℕ × ℕ
get_and_add w x value = (value, (value + x) % 2 ^ w)

-- The value that a call of `__sync_fetch_and_add` saw and `x`, which is added to it once more.
unfoldable pub add_and_get : (w x value : ℕ) → ℕ × ℕ
unfolding get_and_add
add_and_get w x value = let (old, value') = get_and_add w x value in ((old + x) % 2 ^ w, value')

unfoldable pub increment_and_get : (w value : ℕ) → ℕ × ℕ
unfolding add_and_get
increment_and_get w value = add_and_get w 1 value

unfoldable pub decrement_and_get : (w value : ℕ) → ℕ × ℕ
unfolding add_and_get
decrement_and_get w value = add_and_get w (2 ^ w - 1) value

unfoldable pub get_and_set : (new_val value : ℕ) → ℕ × ℕ
get_and_set new_val value = (value, new_val)

-- `joins` and `detaches` are the handles that pthread_join and pthread_detach were given so far, and
-- `runs` those of the threads that pthread_create has made.
pub record Thread : Type 0 where
  pub started : Bool
  pub joined : Bool
  pub pthread_id : ℕ
  pub name : List ℕ
  pub runs : List ℕ
  pub joins : List ℕ
  pub detaches : List ℕ

-- "Thread".
abbrev pub thread_prefix : List ℕ
thread_prefix = 84 ∷ 104 ∷ 114 ∷ 101 ∷ 97 ∷ 100 ∷ []

module _ (print : ℕ → List ℕ) where
  unfoldable pub default_name : (num : ℕ) → List ℕ → List ℕ
  default_name num [] = thread_prefix ++ print num
  default_name num (x ∷ xs) = x ∷ xs

  -- With the thread, what `numCreated_` then is.
  unfoldable pub create : (num_created : ℕ) → List ℕ → Thread × ℕ
  unfolding default_name increment_and_get
  create num_created name =
      let (num, num_created') = increment_and_get 32 num_created in
      (
        record {
          started = false;
          joined = false;
          pthread_id = 0;
          name = default_name num name;
          runs = [];
          joins = [];
          detaches = [];
        },
        num_created',
      )

-- `none` is the end of the process where pthread_create fails.
unfoldable pub start : Option ℕ → Thread → Option Thread
start none t = none
start (some id) t = some (record t { started = true; pthread_id = id; runs = id ∷ t.runs })

unfoldable pub join : Thread → Thread
join t = record t { joined = true; joins = t.pthread_id ∷ t.joins }

-- The destructor.
unfoldable pub destroy : Thread → Thread
destroy t =
    if t.started && not t.joined then record t { detaches = t.pthread_id ∷ t.detaches } else t

-- `cacheTid` and `tid`; `gettid` is what the system gives.
unfoldable pub cache_tid : (gettid cached : ℕ) → ℕ
cache_tid gettid cached = if cached == 0 then gettid else cached

unfoldable pub tid : (gettid cached : ℕ) → ℕ
unfolding cache_tid
tid gettid cached = if cached == 0 then cache_tid gettid cached else cached
