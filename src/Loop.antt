-- ===== src/Loop.antt =====
-- The event loop in class EPollPoller of epoller.h and epoller.cpp: functors queued by any thread, the
-- eventfd that wakes the loop, and the rounds of `poll`. A functor is known by what it queues in
-- turn; `epoll_wait` and the owners' callbacks are arguments.
pub mod Pending
pub mod Wakeup
pub mod Rounds
mod Tests
use network_ydxlib.Base.{
  ℕ, ◌+◌, ◌*◌, Bool, true, false, ◌||◌, not, List, [], ◌∷◌, ◌++◌, ◌==◌, if◌then◌else◌, length, map,
}
use network_ydxlib.Channel.{Channel, Mask, Callback, set_revents, handle_event}

-- `wakeups` is the count in the eventfd; `done` lists the functors called so far. `chans` gives the
-- channel at an address, and `events_size` is the size of `events_`.
pub record Loop (F : Type 0) : Type 0 where
  pub pending : List F
  pub calling : Bool
  pub quitting : Bool
  pub wakeups : ℕ
  pub done : List F
  pub events_size : ℕ
  pub chans : ℕ → Channel

pub data Wait : Type 0 where
  timeout failed : Wait
  ready : List (ℕ × Mask) → Wait

-- `channel->set_revents(events_[i].events)` for the channel that each event names.
unfoldable pub fill_active_channels : List (ℕ × Mask) → (ℕ → Channel) → ℕ → Channel
fill_active_channels [] chans = chans
fill_active_channels ((p, e) ∷ evs) chans =
    fill_active_channels evs (λ q. if p == q then set_revents (chans p) e else chans q)

-- `events_` doubles when a round fills it.
unfoldable pub grow : ℕ → ℕ → ℕ
grow n size = if n == size then size * 2 else size

module _ {F : Type 0} where
  unfoldable pub wakeup : Loop F → Loop F
  wakeup l = record l { wakeups = l.wakeups + 1 }

  unfoldable pub push : F → Loop F → Loop F
  push f l = record l { pending = l.pending ++ (f ∷ []) }

  -- `own` says whether the caller is the loop's own thread.
  unfoldable pub queue_in_loop : Bool → F → Loop F → Loop F
  unfolding wakeup push
  queue_in_loop own f l = let l' = push f l in if not own || l'.calling then wakeup l' else l'

  -- `handleRead()` of the wakeup channel: reading an eventfd takes its whole count.
  unfoldable pub handle_read : Loop F → Loop F
  handle_read l = record l { wakeups = 0 }

  unfoldable pub quit : Bool → Loop F → Loop F
  unfolding wakeup
  quit own l = let l' : Loop F = record l { quitting = true } in if own then l' else wakeup l'

module _ {F : Type 0} (adds : F → List F) where
  -- The loop's own thread queues a list of functors, one after the other.
  unfoldable pub queue_all : List F → Loop F → Loop F
  queue_all [] l = l
  queue_all (f ∷ fs) l = queue_all fs (queue_in_loop true f l)

  -- A call of a functor.
  unfoldable pub call : F → Loop F → Loop F
  unfolding queue_all
  call f l = queue_all (adds f) (record l { done = l.done ++ (f ∷ []) })

  unfoldable pub call_all : List F → Loop F → Loop F
  call_all [] l = l
  call_all (f ∷ fs) l = call_all fs (call f l)

  unfoldable pub run_in_loop : Bool → F → Loop F → Loop F
  run_in_loop own f l = if own then call f l else queue_in_loop own f l

  unfoldable pub do_pending_functors : Loop F → Loop F
  unfolding call_all
  do_pending_functors l =
      let l' = call_all l.pending (record l { calling = true; pending = [] }) in
      record l' { calling = false }

  module _ (handle : ℕ → Callback → Loop F → Loop F) where
    -- `handleEvent` of the channel at address `p`.
    unfoldable pub handle_all : ℕ → List Callback → Loop F → Loop F
    handle_all p [] l = l
    handle_all p (c ∷ cs) l = handle_all p cs (handle p c l)

    unfoldable pub dispatch : List (ℕ × Mask) → Loop F → Loop F
    unfolding handle_all
    dispatch [] l = l
    dispatch ((p, e) ∷ evs) l = dispatch evs (handle_all p (handle_event (l.chans p)) l)

    -- The body of the loop, and `run_one_poll()`.
    unfoldable pub round : Wait → Loop F → Loop F
    unfolding dispatch do_pending_functors
    round timeout l = l
    round failed l = l
    round (ready []) l = l
    round (ready (e ∷ evs)) l = do_pending_functors (
        dispatch (e ∷ evs) (record l {
          chans = fill_active_channels (e ∷ evs) l.chans;
          events_size = grow (length (e ∷ evs)) l.events_size;
        }))

    unfoldable pub run_one_poll : Wait → Loop F → Loop F
    unfolding round
    run_one_poll w l = if l.quitting then l else round w l

    -- `poll()`, for what the calls of `epoll_wait` give.
    unfoldable pub poll : List Wait → Loop F → Loop F
    unfolding run_one_poll
    poll [] l = l
    poll (w ∷ ws) l = poll ws (run_one_poll w l)
