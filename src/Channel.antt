-- ===== src/Channel.antt =====
-- class Channel of channel.h and channel.cpp: a file descriptor, the events that its owner wants to
-- hear of, and the callbacks for those that came. A mask of EPOLL bits is a record of flags.
pub mod Dispatch
use network_ydxlib.Base.{ℕ, Bool, true, false, ◌&&◌, ◌||◌, not, List, [], ◌++◌, ◌∷◌, if◌then◌else◌}

pub record Mask : Type 0 where
  pub epollin : Bool
  pub epollpri : Bool
  pub epollout : Bool
  pub epollerr : Bool
  pub epollhup : Bool
  pub epollrdhup : Bool

abbrev pub none_event : Mask
none_event = record {
  epollin = false;
  epollpri = false;
  epollout = false;
  epollerr = false;
  epollhup = false;
  epollrdhup = false;
}

abbrev pub read_event : Mask
read_event = record none_event { epollin = true; epollpri = true }

abbrev pub write_event : Mask
write_event = record none_event { epollout = true }

-- `a | b`, `a & ~b`, and whether `a & b` is not 0.
unfoldable pub mask_or : Mask → Mask → Mask
mask_or a b = record {
  epollin = a.epollin || b.epollin;
  epollpri = a.epollpri || b.epollpri;
  epollout = a.epollout || b.epollout;
  epollerr = a.epollerr || b.epollerr;
  epollhup = a.epollhup || b.epollhup;
  epollrdhup = a.epollrdhup || b.epollrdhup;
}

unfoldable pub mask_minus : Mask → Mask → Mask
mask_minus a b = record {
  epollin = a.epollin && not b.epollin;
  epollpri = a.epollpri && not b.epollpri;
  epollout = a.epollout && not b.epollout;
  epollerr = a.epollerr && not b.epollerr;
  epollhup = a.epollhup && not b.epollhup;
  epollrdhup = a.epollrdhup && not b.epollrdhup;
}

unfoldable pub meets : Mask → Mask → Bool
meets a b =
    (a.epollin && b.epollin)
    || (a.epollpri && b.epollpri)
    || (a.epollout && b.epollout)
    || (a.epollerr && b.epollerr)
    || (a.epollhup && b.epollhup)
    || (a.epollrdhup && b.epollrdhup)

-- `index_`: kNew (-1), kAdded (1) and kDeleted (2).
pub data Index : Type 0 where
  new added deleted : Index

-- Which callbacks are set; what they do is the owner's.
pub record Callbacks : Type 0 where
  pub on_read : Bool
  pub on_write : Bool
  pub on_close : Bool
  pub on_error : Bool

pub record Channel : Type 0 where
  pub fd : ℕ
  pub events : Mask
  pub revents : Mask
  pub index : Index
  pub callbacks : Callbacks

abbrev pub no_callbacks : Callbacks
no_callbacks = record { on_read = false; on_write = false; on_close = false; on_error = false }

abbrev pub channel : ℕ → Channel
channel fd = record {
  fd = fd;
  events = none_event;
  revents = none_event;
  index = new;
  callbacks = no_callbacks;
}

unfoldable pub is_none_event : Channel → Bool
unfolding meets
is_none_event c = not (meets c.events c.events)

unfoldable pub is_writing : Channel → Bool
unfolding meets
is_writing c = meets c.events write_event

abbrev pub set_index : Channel → Index → Channel
set_index c i = record c { index = i }

abbrev pub set_revents : Channel → Mask → Channel
set_revents c m = record c { revents = m }

pub data Callback : Type 0 where
  reads writes closes errors : Callback

-- `if (when) { if (cb) cb(); }`
abbrev pub fire : Bool → Bool → Callback → List Callback
fire when is_set cb = if when && is_set then cb ∷ [] else []

-- The callbacks that `handleEvent` calls, in order.
unfoldable pub handle_event : Channel → List Callback
unfolding meets
handle_event c =
    let r = c.revents in
    fire (r.epollhup && not r.epollin) c.callbacks.on_close closes
    ++ (fire r.epollerr c.callbacks.on_error errors
        ++ (fire (r.epollin || r.epollpri || r.epollrdhup) c.callbacks.on_read reads
            ++ fire r.epollout c.callbacks.on_write writes))
