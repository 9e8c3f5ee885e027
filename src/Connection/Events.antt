-- ===== src/Connection/Events.antt =====
-- TcpConnection: its constructor, the default message callback, and the callbacks that its channel
-- calls for the events that came.
use network_ydxlib.Base.{ℕ, true, Option, none, some, List, [], ◌∷◌}
use network_ydxlib.Buffer.{Buffer, Readv, init, init_space, retrieve_all}
use network_ydxlib.Channel
use network_ydxlib.Channel.{Mask, Callback, reads, writes, closes, errors, channel, set_revents}
use network_ydxlib.Poller.{Poller}
use network_ydxlib.Connection.{
  Connection, Write, connecting, handle_read, handle_write, handle_close,
}

-- The channel stands at `address`.
unfoldable pub create : Poller → (address sockfd : ℕ) → Connection
create poller address sockfd = record {
  state = connecting;
  poller = poller;
  address = address;
  chan = record (channel sockfd) {
    callbacks = record { on_read = true; on_write = true; on_close = true; on_error = true };
  };
  input = init init_space;
  output = init init_space;
  accepted = [];
  effects = [];
  posted = 0;
}

unfoldable pub default_message_callback : Buffer → Buffer
default_message_callback b = retrieve_all b

-- It only prints the socket's error.
unfoldable pub handle_error : Connection → Connection
handle_error c = c

module _ (on_message : Buffer → Buffer) (r : Readv) (w : Write) where
  unfoldable pub run_callback : Callback → Connection → Option Connection
  unfolding handle_error
  run_callback reads c = handle_read on_message c r
  run_callback writes c = some (handle_write c w)
  run_callback closes c = handle_close c
  run_callback errors c = some (handle_error c)

  unfoldable pub run_callbacks : List Callback → Option Connection → Option Connection
  unfolding run_callback
  run_callbacks cbs none = none
  run_callbacks [] (some c) = some c
  run_callbacks (cb ∷ cbs) (some c) = run_callbacks cbs (run_callback cb c)

  -- What `readv` and `write` give, if they are called, are `r` and `w`.
  unfoldable pub handle_event : Mask → Connection → Option Connection
  unfolding run_callbacks
  handle_event revents c =
      let c' : Connection = record c { chan = set_revents c.chan revents } in
      run_callbacks (Channel.handle_event c'.chan) (some c')
