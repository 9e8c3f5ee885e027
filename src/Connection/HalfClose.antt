-- ===== src/Connection/HalfClose.antt =====
-- TcpConnection::shutdown while bytes are still to be written: `shutdownInLoop` puts it off, and
-- nothing takes it up again.
use network_ydxlib.Base.{◌≡◌, refl, ap, ◌∙◌, ℕ, Bool, true, some, List, ◌++◌, arith, length, take}
use network_ydxlib.Base.Words.{sub_size}
use network_ydxlib.Channel.{is_writing}
use network_ydxlib.Connection.{
  Connection, connected, disconnecting, Write, wrote, refused, ask, want_writing, keep_rest,
  send_direct, send, wrote_out, handle_write, is_connected, shutdown, shutdown_in_loop,
}

-- What others notice, and the state, are as before.
record Quiet (c d : Connection) : Type 0 where
  state : d.state ≡ c.state
  effects : d.effects ≡ c.effects

handle_write-Quiet : (c : Connection) (w : Write) → Quiet c (handle_write c w)
unfolding handle_write wrote_out ask
handle_write-Quiet c (refused e) = record { state = refl; effects = refl }
handle_write-Quiet c (wrote n) = ground arith

keep_rest-Quiet :
    (c d : Connection) (xs : List ℕ) (n k : ℕ) → keep_rest c xs n k ≡ some d → Quiet c d
unfolding keep_rest want_writing ask
keep_rest-Quiet c d xs n k e = ground arith

send_direct-Quiet :
    (c d : Connection) (xs : List ℕ) (w : Write) → send_direct c xs w ≡ some d → Quiet c d
unfolding send_direct
send_direct-Quiet c d xs (wrote n) e = ground (
  arith,
  keep_rest-Quiet (record c { accepted = c.accepted ++ take n xs }) d xs n (sub_size (length xs) n),
)
send_direct-Quiet c d xs (refused x) e = ground (arith, keep_rest-Quiet c d xs 0 (length xs))

send-Quiet : (c d : Connection) (xs : List ℕ) (w : Write) → send c xs w ≡ some d → Quiet c d
unfolding send
send-Quiet c d xs w e =
    ground (arith, send_direct-Quiet c d xs w, keep_rest-Quiet c d xs 0 (length xs))

-- Later sends, writes and shutdowns of the same connection.
pub data Later (c : Connection) : Connection → Type 0 where
  here : Later c c
  sending :
      {d e : Connection} (xs : List ℕ) (w : Write) → Later c d → send d xs w ≡ some e → Later c e
  writing : {d : Connection} (w : Write) → Later c d → Later c (handle_write d w)
  shutting : {d : Connection} (own : Bool) → Later c d → Later c (shutdown own d)

shutdown-down : (own : Bool) (c : Connection) → c.state ≡ disconnecting → shutdown own c ≡ c
unfolding shutdown is_connected
shutdown-down own c e = ground arith

Later_lem :
    {c d : Connection}
    → c.state ≡ disconnecting
    → Later c d
    → (d.state ≡ disconnecting) × (d.effects ≡ c.effects)
Later_lem down here = (down, refl)
Later_lem down (sending {d} {e} xs w l done) =
    let (st, ef) = Later_lem down l in
    let q = send-Quiet d e xs w done in (q.state ∙ st, q.effects ∙ ef)
Later_lem down (writing {d} w l) =
    let (st, ef) = Later_lem down l in
    let q = handle_write-Quiet d w in (q.state ∙ st, q.effects ∙ ef)
Later_lem down (shutting {d} own l) =
    let (st, ef) = Later_lem down l in
    let same = shutdown-down own d st in
    (ap (λ (k : Connection). k.state) same ∙ st, ap (λ (k : Connection). k.effects) same ∙ ef)

shutdown-writing :
    (c : Connection)
    → c.state ≡ connected
    → is_writing c.chan ≡ true
    → shutdown true c ≡ record c { state = disconnecting }
unfolding shutdown is_connected shutdown_in_loop
shutdown-writing c e w = ground arith

-- If `shutdown` is called in the loop while bytes wait to be written, the socket's write end is never
-- shut down: not when the last of them has been written, and not by calling `shutdown` again. After
-- any later sends, writes and shutdowns no callback and no shutdown of the socket has been called.
pub shutdown_lost :
    (c d : Connection)
    → c.state ≡ connected
    → is_writing c.chan ≡ true
    → Later (shutdown true c) d
    → (d.effects ≡ c.effects) × (d.state ≡ disconnecting)
shutdown_lost c d e w l =
    let s = shutdown-writing c e w in
    let (st, ef) = Later_lem (ap (λ (k : Connection). k.state) s) l in
    (ef ∙ ap (λ (k : Connection). k.effects) s, st)
