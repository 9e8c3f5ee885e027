-- ===== src/LoopPool.antt =====
-- class EPollerThreadPool of epoller_thread_pool.h and epoller_thread_pool.cpp: the loops among which
-- connections are shared out. A loop is known by its address.
pub mod Turns
mod Tests
use network_ydxlib.Base.{
  ℕ, zero, suc, ◌+◌, ◌%◌, Bool, true, Option, none, some, List, [], ◌∷◌, ◌++◌, leb, if◌then◌else◌,
  take, length, get_elem?,
}

pub record LoopPool : Type 0 where
  pub epoll_base : ℕ
  pub started : Bool
  pub num_threads : ℕ
  pub next : ℕ
  pub epolls : List ℕ

-- `made` are the loops that `startEpoll` of the new threads gives.
unfoldable pub start : List ℕ → LoopPool → LoopPool
start made p = record p { started = true; epolls = p.epolls ++ take p.num_threads made }

-- `none` is an index outside the vector.
unfoldable pub next_of : List ℕ → LoopPool → Option ℕ × LoopPool
next_of [] p = (some p.epoll_base, p)
next_of (e ∷ es) p = (
  get_elem? (e ∷ es) p.next,
  record p { next = if leb (suc (length es)) (p.next + 1) then 0 else p.next + 1 },
)

unfoldable pub get_next_loop : LoopPool → Option ℕ × LoopPool
unfolding next_of
get_next_loop p = next_of p.epolls p

-- C's remainder, of a size that is not 0.
unfoldable pub hash_of : List ℕ → LoopPool → ℕ → Option ℕ
hash_of [] p hash_code = some p.epoll_base
hash_of (e ∷ es) p hash_code = get_elem? (e ∷ es) (hash_code % suc (length es))

unfoldable pub get_loop_for_hash : LoopPool → ℕ → Option ℕ
unfolding hash_of
get_loop_for_hash p hash_code = hash_of p.epolls p hash_code

unfoldable pub all_of : List ℕ → LoopPool → List ℕ
all_of [] p = p.epoll_base ∷ []
all_of (e ∷ es) p = e ∷ es

unfoldable pub get_all_loops : LoopPool → List ℕ
unfolding all_of
get_all_loops p = all_of p.epolls p
