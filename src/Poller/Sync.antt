-- ===== src/Poller/Sync.antt =====
-- Whatever the owners of channels ask for, the poller's record of a channel agrees with the kernel's.
use network_ydxlib.Base.{
  ℕ, ◌≡◌, refl, List, [], ◌∷◌, ◌==◌, if◌then◌else◌, Option, some, none, arith,
}
use network_ydxlib.Channel.{Mask, Channel, Index, new, added, deleted}
use network_ydxlib.Poller.{
  Poller, insert, erase, lookup, update_by, update_channel, remove_channel, ChannelOp, perform,
  enable_reading, disable_reading, enable_writing, disable_writing, disable_all, remove,
}
use network_ydxlib.Poller.Kernel.{accepts, interest, IsAccepted}

abbrev expected : Index → Mask → Option Mask
expected new e = none
expected added e = some e
expected deleted e = none

abbrev home : Index → ℕ → Option ℕ
home new p = none
home added p = some p
home deleted p = some p

-- The channel at address `p` is watched for its events if it is marked as added, else not at all,
-- and stands in the map unless it is marked as new.
pub record IsSynced (r : Poller) (p : ℕ) (c : Channel) : Type 0 where
  pub watched : interest c.fd r.calls ≡ expected c.index c.events
  pub mapped : lookup c.fd r.channels ≡ home c.index p
  pub accepted : IsAccepted r.calls

pub lookup-erase :
    (fd k : ℕ) (m : List (ℕ × ℕ)) → lookup k (erase fd m) ≡ (if fd == k then none else lookup k m)
unfolding lookup erase
lookup-erase fd k [] = ground arith
lookup-erase fd k ((j, p) ∷ m) = ground (arith, lookup-erase fd k m)

pub lookup-insert :
    (fd p k : ℕ) (m : List (ℕ × ℕ))
    → lookup k (insert fd p m) ≡ (if fd == k then some p else lookup k m)
unfolding insert lookup
lookup-insert fd p k m = ground (arith, lookup-erase fd k m)

-- `update_channel`, when the channel's events have just changed from `old`.
update_by-IsSynced :
    (i : Index) (r : Poller) (p : ℕ) (c : Channel) (old : Mask)
    → c.index ≡ i
    → interest c.fd r.calls ≡ expected i old
    → lookup c.fd r.channels ≡ home i p
    → IsAccepted r.calls
    → IsSynced (update_by i r p c).0 p (update_by i r p c).1
unfolding update_by interest accepts
update_by-IsSynced new r p c old e w m a = ground (arith, lookup-insert c.fd p c.fd r.channels)
update_by-IsSynced deleted r p c old e w m a = ground arith
update_by-IsSynced added r p c old e w m a = ground arith

update-IsSynced :
    (r : Poller) (p : ℕ) (c : Channel) (e : Mask)
    → IsSynced r p c
    → let c' : Channel = record c { events = e } in
      IsSynced (update_channel r p c').0 p (update_channel r p c').1
unfolding update_channel
update-IsSynced r p c e s =
    update_by-IsSynced c.index r p (record c { events = e }) c.events refl s.watched s.mapped
      s.accepted

remove-IsSynced :
    (r : Poller) (p : ℕ) (c : Channel)
    → IsSynced r p c
    → IsSynced (remove_channel r c).0 p (remove_channel r c).1
unfolding remove_channel interest accepts
remove-IsSynced r p c s = ground (arith, lookup-erase c.fd c.fd r.channels)

-- If that was so before, then after each request of its owner the channel is watched for exactly
-- the events it asks for, or not at all if it is not marked as added; it stands in the map unless
-- it is marked as new; and no call of `epoll_ctl` fails.
pub perform-IsSynced :
    (o : ChannelOp) (r : Poller) (p : ℕ) (c : Channel)
    → IsSynced r p c
    → IsSynced (perform o r p c).0 p (perform o r p c).1
unfolding perform
perform-IsSynced remove r p c s = remove-IsSynced r p c s
perform-IsSynced enable_reading r p c s = update-IsSynced r p c _ s
perform-IsSynced disable_reading r p c s = update-IsSynced r p c _ s
perform-IsSynced enable_writing r p c s = update-IsSynced r p c _ s
perform-IsSynced disable_writing r p c s = update-IsSynced r p c _ s
perform-IsSynced disable_all r p c s = update-IsSynced r p c _ s
