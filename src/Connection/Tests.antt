-- ===== src/Connection/Tests.antt =====
-- TcpConnection at concrete states.
use network_ydxlib.Base.{Option, ◌≡◌, refl, inl, some, none, [], ◌∷◌, arith, true, false}
use network_ydxlib.Buffer.{
  append, has_written, writeable_bytes, copy_to_write, ensure_writeable_bytes, failed, Buffer,
  readable_bytes,
}
use network_ydxlib.Channel
use network_ydxlib.Channel.{none_event, channel, is_writing, added, Mask}
use network_ydxlib.Poller.{Poller, lookup, perform, update_channel, new_events}
use network_ydxlib.Poller.Kernel.{interest, accepts}
use network_ydxlib.Poller.Sync.{IsSynced}
use network_ydxlib.Connection.{
  Connection, connected, disconnecting, disconnected, wrote, refused, ewouldblock, send,
  handle_write, handle_close, shutdown, is_fault,
}
use network_ydxlib.Connection.{connect_established}
use network_ydxlib.Connection.Told.{Told, told}
use network_ydxlib.Connection.Story.{Reach, next, establishes, events, Stands, Reach-Stands}
use network_ydxlib.Connection.Story
use network_ydxlib.Connection.Again.{send-fails}
use network_ydxlib.Connection.Events.{
  create, default_message_callback, handle_event, run_callbacks, run_callback,
}
use network_ydxlib.Connection.Stream.{stream, IsSound, send_lem, taken}
use network_ydxlib.Connection.Drain.{start, written, Runs_lem}
use network_ydxlib.Connection.HalfClose.{here, writing, shutdown_lost}

abbrev empty : Buffer
empty = record { bytes = 0 ∷ 0 ∷ 0 ∷ 0 ∷ []; reader_index = 0; writer_index = 0 }

abbrev reading : Mask
reading = record {
  epollin = true;
  epollpri = true;
  epollout = false;
  epollerr = false;
  epollhup = false;
  epollrdhup = false;
}

abbrev both : Mask
both = record reading { epollout = true }

-- Connected, with descriptor 7 watched for reading.
abbrev up : Connection
up = record {
  state = connected;
  poller = record {
    channels = (7, 100) ∷ [];
    calls = (record { op = network_ydxlib.Poller.ctl_add; fd = 7; events = reading }) ∷ [];
  };
  address = 100;
  chan = record (channel 7) { events = reading; index = added };
  input = empty;
  output = empty;
  accepted = [];
  effects = [];
  posted = 0;
}

-- The same with the bytes 5, 6 kept.
abbrev busy : Connection
busy = record up {
  chan = record (channel 7) { events = both; index = added };
  output = record { bytes = 5 ∷ 6 ∷ 0 ∷ 0 ∷ []; reader_index = 0; writer_index = 2 };
}

up-IsSound : IsSound up
unfolding is_writing readable_bytes
up-IsSound = ground arith

busy-IsSound : IsSound busy
unfolding is_writing readable_bytes
busy-IsSound = ground arith

up-IsSynced : IsSynced up.poller up.address up.chan
unfolding interest lookup accepts
up-IsSynced = record { watched = refl; mapped = refl; accepted = (refl, tt) }

send_lem_example :
    (c : Connection) × (send busy (7 ∷ 8 ∷ []) (refused ewouldblock) ≡ some c)
    × (stream c ≡ 5 ∷ 6 ∷ 7 ∷ 8 ∷ [])
    × IsSound c
unfolding taken is_fault readable_bytes
send_lem_example = send_lem busy (7 ∷ 8 ∷ []) (refused ewouldblock) busy-IsSound (omega arith) tt

Runs_lem_example :
    (stream (handle_write busy (wrote 2)) ≡ 5 ∷ 6 ∷ []) × IsSound (handle_write busy (wrote 2))
Runs_lem_example = Runs_lem busy-IsSound (written (wrote 2) start)

shutdown_lost_example :
    let d = handle_write (shutdown true busy) (wrote 2) in
    (d.effects ≡ []) × (d.state ≡ disconnecting)
unfolding is_writing
shutdown_lost_example =
    shutdown_lost busy (handle_write (shutdown true busy) (wrote 2)) refl refl
      (writing (wrote 2) here)

abbrev hung_up : Mask
hung_up = record none_event { epollhup = true }

abbrev made : Connection
made = create (record { channels = []; calls = [] }) 100 7

-- Established, and then closed by its peer.
abbrev hung : Option Connection
hung =
    handle_event default_message_callback (failed 11) (wrote 0) hung_up (connect_established made)

abbrev of_some : Option Connection → Connection
of_some none = made
of_some (some c) = c

hung_lem : hung ≡ some (of_some hung)
unfolding handle_event run_callbacks run_callback Channel.handle_event handle_close
    connect_established create perform update_channel
hung_lem = refl

established-added : (connect_established made).chan.index ≡ added
unfolding connect_established create perform update_channel
established-added = refl

made-Reach : Reach default_message_callback made (of_some hung)
unfolding create
made-Reach =
    next (next Story.here (establishes refl))
      (events hung_up (failed 11) (wrote 0) established-added refl hung_lem)

Reach-Stands_example :
    (t : Told) × (told (of_some hung).effects ≡ some t) × Stands t (of_some hung).state
Reach-Stands_example =
    Reach-Stands default_message_callback (record { channels = []; calls = [] }) 100 7 made-Reach

-- Bytes are kept, and the close callback is set.
abbrev heard : Connection
heard = record busy {
  chan = record busy.chan {
    callbacks = record { on_read = true; on_write = true; on_close = true; on_error = true };
  };
}

abbrev heard_closed : Connection
heard_closed = of_some (handle_close heard)

abbrev heard_again : Connection
heard_again = of_some (send heard_closed (7 ∷ []) (wrote 0))

heard_closed_lem : handle_close heard ≡ some heard_closed
unfolding handle_close
heard_closed_lem = refl

heard_again_lem : send heard_closed (7 ∷ []) (wrote 0) ≡ some heard_again
unfolding send handle_close readable_bytes append has_written writeable_bytes copy_to_write
    ensure_writeable_bytes
heard_again_lem = refl

send-fails_example :
    (heard_again.chan.index ≡ added)
    × (is_writing heard_again.chan ≡ true)
    × (heard_again.state ≡ disconnected)
    × (handle_event default_message_callback (failed 11) (wrote 0) hung_up heard_again ≡ none)
unfolding readable_bytes
send-fails_example =
    send-fails default_message_callback heard heard_closed heard_again (7 ∷ []) (wrote 0) hung_up
      (failed 11) (wrote 0) (inl refl) refl refl (omega arith) heard_closed_lem (omega arith)
      heard_again_lem refl
