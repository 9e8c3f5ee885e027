-- ===== src/Poller.antt =====
-- Registration in class EPollPoller of epoller.h and epoller.cpp: the map of channels, and the
-- calls of `epoll_ctl` that it makes. What a call returns is only printed, so the calls are kept as
-- a list, the last one first.
pub mod Kernel
pub mod Sync
pub mod System
mod Tests
use network_ydxlib.Base.{ℕ, Bool, List, [], ◌∷◌, ◌==◌, if◌then◌else◌, Option, some, none}
use network_ydxlib.Channel.{
  Channel, Mask, Index, new, added, deleted, set_index, is_none_event, mask_or, mask_minus,
  none_event, read_event, write_event,
}

pub data CtlOp : Type 0 where
  ctl_add ctl_mod ctl_del : CtlOp

pub record Ctl : Type 0 where
  pub op : CtlOp
  pub fd : ℕ
  pub events : Mask

-- `channels_` maps a descriptor to the address of a channel.
pub record Poller : Type 0 where
  pub channels : List (ℕ × ℕ)
  pub calls : List Ctl

abbrev pub init : Poller
init = record { channels = []; calls = [] }

unfoldable pub erase : ℕ → List (ℕ × ℕ) → List (ℕ × ℕ)
erase fd [] = []
erase fd ((k, p) ∷ m) = if k == fd then erase fd m else (k, p) ∷ erase fd m

unfoldable pub lookup : ℕ → List (ℕ × ℕ) → Option ℕ
lookup fd [] = none
lookup fd ((k, p) ∷ m) = if k == fd then some p else lookup fd m

unfoldable pub insert : ℕ → ℕ → List (ℕ × ℕ) → List (ℕ × ℕ)
unfolding erase
insert fd p m = (fd, p) ∷ erase fd m

unfoldable pub update : Poller → CtlOp → Channel → Poller
update r op c = record r { calls = (record { op = op; fd = c.fd; events = c.events }) ∷ r.calls }

-- `updateChannel(channel)`, by the channel's `index_`; the channel stands at address `p`.
unfoldable pub update_by : Index → Poller → ℕ → Channel → Poller × Channel
unfolding insert update
update_by new r p c =
    (update (record r { channels = insert c.fd p r.channels }) ctl_add c, set_index c added)
update_by deleted r p c = (update r ctl_add c, set_index c added)
update_by added r p c =
    if is_none_event c then (update r ctl_del c, set_index c deleted) else (update r ctl_mod c, c)

unfoldable pub update_channel : Poller → ℕ → Channel → Poller × Channel
unfolding update_by
update_channel r p c = update_by c.index r p c

unfoldable pub is_added : Index → Bool
is_added added = Bool.true
is_added new = Bool.false
is_added deleted = Bool.false

unfoldable pub remove_channel : Poller → Channel → Poller × Channel
unfolding is_added erase update
remove_channel r c =
    let r' : Poller = record r { channels = erase c.fd r.channels } in
    (if is_added c.index then update r' ctl_del c else r', set_index c new)

-- What the owner of a channel can ask of it.
pub data ChannelOp : Type 0 where
  enable_reading disable_reading enable_writing disable_writing disable_all remove : ChannelOp

unfoldable pub new_events : ChannelOp → Mask → Mask
unfolding mask_or mask_minus
new_events enable_reading e = mask_or e read_event
new_events disable_reading e = mask_minus e read_event
new_events enable_writing e = mask_or e write_event
new_events disable_writing e = mask_minus e write_event
new_events disable_all e = none_event
new_events remove e = e

unfoldable pub perform : ChannelOp → Poller → ℕ → Channel → Poller × Channel
perform remove r p c = remove_channel r c
perform enable_reading r p c =
    update_channel r p (record c { events = new_events enable_reading c.events })
perform disable_reading r p c =
    update_channel r p (record c { events = new_events disable_reading c.events })
perform enable_writing r p c =
    update_channel r p (record c { events = new_events enable_writing c.events })
perform disable_writing r p c =
    update_channel r p (record c { events = new_events disable_writing c.events })
perform disable_all r p c =
    update_channel r p (record c { events = new_events disable_all c.events })
