-- ===== src/Connection/Drain.antt =====
-- TcpConnection: `handleWrite` moves kept bytes to the socket, and sends and writes in any order.
use network_ydxlib.Base.{
  some-inj, ℕ, ◌+◌, ◌^◌, ◌<◌, ◌≡◌, refl, sym, ap, ◌∙◌, subst, inl, inr, true, ◌&&◌, some, List, [],
  ◌++◌, arith, ltb, ◌==◌, length, take, append_assoc, append-nil, take-append-drop, Bool-cases,
}
use network_ydxlib.Buffer.{Buffer, readable_bytes, retrieve, peek}
use network_ydxlib.Buffer.Inv.{IsValid, contents, contents-retrieve, readable-eq}
use network_ydxlib.Channel.{is_writing}
use network_ydxlib.Connection.{
  Connection, Write, wrote, refused, ask, send, wrote_out, handle_write,
}
use network_ydxlib.Connection.Stream.{stream, IsSound, Within, taken, send_lem, writing-disable}

peek-contents : (b : Buffer) → IsValid b → peek b (readable_bytes b) ≡ contents b
unfolding peek
peek-contents b v = rw (readable-eq v)

wrote_out_lem :
    (c : Connection) (n : ℕ)
    → IsSound c
    → is_writing c.chan ≡ true
    → (stream (wrote_out c n) ≡ stream c) × IsSound (wrote_out c n)
unfolding wrote_out ask
wrote_out_lem c n s w =
    let (left, bv) = contents-retrieve c.output n s.valid in
    let b : Buffer = retrieve c.output n in
    let moved : (c.accepted ++ take n (contents c.output)) ++ contents b ≡ stream c =
      append_assoc c.accepted (take n (contents c.output)) (contents b)
      ∙ ap (λ t. c.accepted ++ t)
          (ap (λ t. take n (contents c.output) ++ t) left
            ∙ take-append-drop n (contents c.output)) in
    elim (Bool-cases (readable_bytes (retrieve c.output n) == 0)) [
      | inl z ↦
          rw (z, peek-contents c.output s.valid)
            (moved, record { valid = bv; waits = rw z (writing-disable c.poller c.address c.chan) })
      | inr nz ↦
          rw (nz, peek-contents c.output s.valid) (moved, record { valid = bv; waits = rw nz w })
    ]

-- On a connection whose channel waits for room to write exactly while bytes are kept, `handleWrite`
-- loses no byte and changes no order, whatever `write` takes, and the channel still waits exactly
-- while bytes are kept.
pub handle_write_lem :
    (c : Connection) (w : Write)
    → IsSound c
    → (stream (handle_write c w) ≡ stream c) × IsSound (handle_write c w)
unfolding handle_write
handle_write_lem c (refused e) s = (refl, s)
handle_write_lem c (wrote n) s = elim (Bool-cases (is_writing c.chan && ltb 0 n)) [
  | inl go ↦ rw go (wrote_out_lem c n s (ground arith))
  | inr stay ↦ rw stay (refl, s)
]

-- Sends and writes, one after the other; the second index is what the sends have taken over.
pub data Runs (c : Connection) : List ℕ → Connection → Type 0 where
  start : Runs c [] c
  sent :
      {ys : List ℕ} {d e : Connection} (xs : List ℕ) (w : Write)
      → Runs c ys d
      → d.output.writer_index + length xs < 2 ^ 63
      → Within w xs
      → send d xs w ≡ some e
      → Runs c (ys ++ taken d w xs) e
  written : {ys : List ℕ} {d : Connection} (w : Write) → Runs c ys d → Runs c ys (handle_write d w)

-- On a connection whose channel waits for room to write exactly while bytes are kept, let sends and
-- writes come in whatever order, where no `write` takes more than it is given, and the writer index of the
-- bytes kept and the length of the data sent come to less than 2^63 at each send. Then the bytes that
-- the socket has accepted, followed by those still kept, are those of before followed by what the sends
-- have taken over, in the order of the sends: of each all its data, but nothing where no bytes were kept
-- and its `write` failed with EPIPE or ECONNRESET. The channel still waits exactly while bytes are kept.
pub Runs_lem :
    {c d : Connection} {xs : List ℕ}
    → IsSound c
    → Runs c xs d
    → (stream d ≡ stream c ++ xs) × IsSound d
Runs_lem {c} s start = (sym (append-nil (stream c)), s)
Runs_lem {c} s (sent {ys} {d} {e} xs w r room h done) =
    let (before, sd) = Runs_lem s r in
    let (e', done', bytes, se) = send_lem d xs w sd room h in
    let same : e' ≡ e = some-inj (sym done' ∙ done) in
    (
      ap stream (sym same)
          ∙ bytes
          ∙ ap (λ t. t ++ taken d w xs) before
          ∙ append_assoc (stream c) ys (taken d w xs),
      subst IsSound same se,
    )
Runs_lem s (written {ys} {d} w r) =
    let (before, sd) = Runs_lem s r in
    let (bytes, se) = handle_write_lem d w sd in (bytes ∙ before, se)
