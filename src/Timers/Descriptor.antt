-- ===== src/Timers/Descriptor.antt =====
-- TimerSet: the timerfd and its channel, from the constructor to the destructor.
use network_ydxlib.Base.{ℕ, ◌≡◌, refl, ◌∙◌, true, Option, none, some, List, [], ◌∷◌, eq_refl}
use network_ydxlib.Channel.{
  Channel, channel, no_callbacks, none_event, read_event, is_none_event, meets, mask_or,
}
use network_ydxlib.Poller.{
  Poller, ctl_add, ctl_del, insert, erase, lookup, update, update_by, update_channel, is_added,
  remove_channel, enable_reading, disable_all, remove, new_events, perform, ChannelOp,
}
use network_ydxlib.Poller.Sync.{lookup-erase}
use network_ydxlib.Timers.{Timer, TimerSet, new_timer_set, close}
use network_ydxlib.Timers.Close.{Emptied, Reach-closes}
use network_ydxlib.Timers.Life.{Reach}

-- The set with the channel of its timerfd, which stands at `address`; `closed` are the arguments of
-- `close`, the last one first.
pub record Watched : Type 0 where
  pub set : TimerSet
  pub poller : Poller
  pub address : ℕ
  pub timerfd_channel : Channel
  pub closed : List ℕ

unfoldable pub ask : ChannelOp → Watched → Watched
ask o w =
    let (r, c) = perform o w.poller w.address w.timerfd_channel in
    record w { poller = r; timerfd_channel = c }

abbrev pub new_watched : (fd : ℕ) → Poller → (address : ℕ) → (timers : ℕ → Option Timer) → Watched
new_watched fd r address timers = record {
  set = new_timer_set timers;
  poller = r;
  address = address;
  timerfd_channel = record (channel fd) { callbacks = record no_callbacks { on_read = true } };
  closed = [];
}

-- What `timerfd_create` gives; without a descriptor the program aborts.
unfoldable pub construct :
    Option ℕ → Poller → (address : ℕ) → (timers : ℕ → Option Timer) → Option Watched
unfolding ask
construct none r address timers = none
construct (some fd) r address timers = some (ask enable_reading (new_watched fd r address timers))

-- The destructor; `none` is a timer deleted before.
unfoldable pub destroy : Watched → Option Watched
unfolding ask
destroy w =
    let v = ask remove (ask disable_all w) in
    elim (close v.set) [
      | none ↦ none
      | some s ↦ some (record v { set = s; closed = v.timerfd_channel.fd ∷ v.closed })
    ]

-- What a destroyed set leaves: its descriptor is out of the map, was given to the poller once and
-- taken from it once, and is closed.
pub record Clean (fd : ℕ) (r : Poller) (s : TimerSet) (w : Watched) : Type 0 where
  pub unmapped : lookup fd w.poller.channels ≡ none
  pub calls :
      w.poller.calls
      ≡ (record { op = ctl_del; fd = fd; events = none_event })
        ∷ (record { op = ctl_add; fd = fd; events = read_event })
        ∷ r.calls
  pub shut : w.closed ≡ fd ∷ []
  pub emptied : Emptied s.container s w.set

abbrev pub and_then : Option Watched → (Watched → Option Watched) → Option Watched
and_then none f = none
and_then (some w) f = f w

-- A set that is constructed, comes to hold the timers `s` by any use with timers' functions that leave
-- it alone, and is destroyed: its timerfd is registered once and deregistered once, leaves the map of
-- channels and is closed, and the timer of each entry is deleted once.
pub destroy-Clean :
    (fd address : ℕ) (r : Poller) (timers : ℕ → Option Timer) (s : TimerSet)
    → Reach s
    → (w : Watched) × (and_then
          (construct (some fd) r address timers)
          (λ v. destroy (record v { set = s }))
        ≡ some w)
      × Clean fd r s w
unfolding construct destroy ask perform update_channel update_by update remove_channel is_added
    is_none_event meets mask_or new_events insert erase
destroy-Clean fd address r timers s h =
    let (s', e, x) = Reach-closes s h in
    let u = ask enable_reading (new_watched fd r address timers) in
    let v = ask remove (ask disable_all (record u { set = s })) in
    (
      record v { set = s'; closed = fd ∷ [] },
      rw (destroy, e) refl,
      record {
        unmapped = lookup-erase fd fd (insert fd address r.channels) ∙ rw (eq_refl fd) refl;
        calls = refl;
        shut = refl;
        emptied = x;
      },
    )
