-- ===== src/LoopPool/Tests.antt =====
-- EPollerThreadPool with three loops.
use network_ydxlib.Base.{[], ◌∷◌, true}
use network_ydxlib.LoopPool.{LoopPool}

abbrev three : LoopPool
three = record {
  epoll_base = 10;
  started = true;
  num_threads = 3;
  next = 0;
  epolls = 20 ∷ 30 ∷ 40 ∷ [];
}
