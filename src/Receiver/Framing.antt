-- ===== src/Receiver/Framing.antt =====
-- Receiver: what `onMessage` makes of bytes that are messages, one after the other.
use network_ydxlib.Base.{
  ℕ, zero, suc, ◌+◌, ◌%◌, ◌^◌, ◌≤◌, ◌<◌, ◌≡◌, refl, sym, ap, ◌∙◌, true, false, some, List, [], ◌∷◌,
  ◌++◌, ◌==◌, if◌then◌else◌, arith, length, drop, length-append, append_assoc, not-eq, eq_refl,
  append-nil,
}
use network_ydxlib.Base.Int.{pos, ltb_ℤ}
use network_ydxlib.Base.Words.{add_size, sub_size, int_of_size, int_bytes, length-int_bytes}
use network_ydxlib.Base.Slices.{drop-append_self}
use network_ydxlib.Buffer
use network_ydxlib.Buffer.{Buffer, readable_bytes, peek, retrieve}
use network_ydxlib.Buffer.Inv
use network_ydxlib.Buffer.Inv.{readable-eq, length-contents, contents-retrieve}
use network_ydxlib.Stream.{int_size, write_buffer}
use network_ydxlib.Stream.Inv.{IsValid, contents}
use network_ydxlib.Stream.Message.{frame, frames, length-frame, contents-write_buffer}
use network_ydxlib.Receiver.Front.{write_buffer-size, message_len-frame, body-frame}
use network_ydxlib.Receiver.{Receiver, take_message, on_message_loop, on_message}

-- Bytes that are not yet a message: none, or a length `n` and fewer bytes than that.
pub data IsPartial : List ℕ → Type 0 where
  nothing : IsPartial []
  cut : (n : ℕ) (xs : List ℕ) → n < 2 ^ 31 → length xs < n → IsPartial (int_bytes (pos n) ++ xs)

-- The receiver once it has taken `m`.
abbrev taken : Receiver → List ℕ → Receiver
taken r m = record {
  ring = (write_buffer r.ring (some m) (pos (length m))).1;
  msg_count = (r.msg_count + 1) % 2 ^ 32;
  notified = if r.msg_count == 0 then r.notified + 1 else r.notified;
}

loop-frame :
    (k : ℕ) (r : Receiver) (b : Buffer) (m more : List ℕ)
    → Buffer.Inv.IsValid b
    → length (Buffer.Inv.contents b) < 2 ^ 31
    → Buffer.Inv.contents b ≡ frame m ++ more
    → on_message_loop (suc k) r b ≡ on_message_loop k (taken r m) (retrieve b (length m + 4))
unfolding on_message_loop take_message
loop-frame k r b m more v h e =
    let l = ap length e ∙ length-append (frame m) more in
    let fl = length-frame m in
    let rl = length-contents v in
    let small : length m < 2 ^ 31 = omega arith in
    let len =
      message_len-frame b (length m) (m ++ more) v small
        (e ∙ append_assoc (int_bytes (pos (length m))) m more) in
    let some_left : (readable_bytes b == 0) ≡ false =
      not-eq (readable_bytes b) 0 (λ z. omega (arith, z)) in
    let whole : ltb_ℤ (int_of_size (sub_size (readable_bytes b) int_size)) (pos (length m))
        ≡ false =
      ground arith in
    let size : add_size int_size (length m % 2 ^ 64) ≡ length m + 4 = omega arith in
    let fits : length m % 2 ^ 64 ≡ length m = omega arith in
    rw (len, some_left, whole, size, fits, body-frame b m more v e) refl

-- The loop stops at bytes that are not yet a message.
loop-partial :
    (k : ℕ) (r : Receiver) (b : Buffer) (rest : List ℕ)
    → Buffer.Inv.IsValid b
    → IsPartial rest
    → Buffer.Inv.contents b ≡ rest
    → on_message_loop (suc k) r b ≡ some (r, b)
unfolding on_message_loop
loop-partial k r b _ v nothing e =
    let z : readable_bytes b ≡ 0 = sym (length-contents v) ∙ ap length e in
    let stop : (readable_bytes b == 0) ≡ true = ap (λ n. n == 0) z ∙ eq_refl 0 in rw stop refl
loop-partial k r b _ v (cut n xs h less) e =
    let l = ap length e ∙ length-append (int_bytes (pos n)) xs in
    let hl = length-int_bytes (pos n) in
    let rl = length-contents v in
    let len = message_len-frame b n xs v h e in
    let some_left : (readable_bytes b == 0) ≡ false =
      not-eq (readable_bytes b) 0 (λ z. omega (arith, z)) in
    let short : ltb_ℤ (int_of_size (sub_size (readable_bytes b) int_size)) (pos n) ≡ true =
      ground arith in
    rw (len, some_left, short) refl

-- All of `ms` are on the ring and counted, and `rest` is left.
pub record Received (r : Receiver) (ms : List (List ℕ)) (rest : List ℕ) (r' : Receiver)
    (b' : Buffer) : Type 0 where
  pub on_ring : contents r'.ring ≡ contents r.ring ++ frames ms
  pub counted : r'.msg_count ≡ (r.msg_count + length ms) % 2 ^ 32
  pub left : Buffer.Inv.contents b' ≡ rest
  pub ring_valid : IsValid r'.ring
  pub buffer_valid : Buffer.Inv.IsValid b'

frames-length : (ms : List (List ℕ)) → length ms ≤ length (frames ms)
frames-length [] = omega arith
frames-length (m ∷ ms) =
    omega (arith, frames-length ms, length-append (frame m) (frames ms), length-frame m)

loop-Received :
    (ms : List (List ℕ)) (k : ℕ) (r : Receiver) (b : Buffer) (rest : List ℕ)
    → Buffer.Inv.IsValid b
    → IsValid r.ring
    → IsPartial rest
    → length (Buffer.Inv.contents b) < 2 ^ 31
    → Buffer.Inv.contents b ≡ frames ms ++ rest
    → length (contents r.ring) + length (frames ms) ≤ r.ring.size
    → r.msg_count < 2 ^ 32
    → length ms < k
    → (r' : Receiver) × (b' : Buffer) × (on_message_loop k r b ≡ some (r', b'))
      × Received r ms rest r' b'
loop-Received [] zero r b rest v w p h e room c f = absurd (omega (arith, f))
loop-Received (m ∷ ms) zero r b rest v w p h e room c f = absurd (omega (arith, f))
loop-Received [] (suc k) r b rest v w p h e room c f = (
  r,
  b,
  loop-partial k r b rest v p e,
  record {
    on_ring = sym (append-nil (contents r.ring));
    counted = omega arith;
    left = e;
    ring_valid = w;
    buffer_valid = v;
  },
)
loop-Received (m ∷ ms) (suc k) r b rest v w p h e room c f =
    let e' : Buffer.Inv.contents b ≡ frame m ++ (frames ms ++ rest) =
      e ∙ append_assoc (frame m) (frames ms) rest in
    let l = ap length e' ∙ length-append (frame m) (frames ms ++ rest) in
    let fl = length-frame m in
    let ml = length-append (frame m) (frames ms) in
    let (_, held, valid) = contents-write_buffer r.ring m w (omega arith) (omega arith) in
    let (behind, bv) = contents-retrieve b (length m + 4) v in
    let left : Buffer.Inv.contents (retrieve b (length m + 4)) ≡ frames ms ++ rest =
      behind
      ∙ ap (drop (length m + 4)) e'
      ∙ drop-append_self (frame m) (frames ms ++ rest) (length m + 4) (sym fl) in
    let size = write_buffer-size r.ring (some m) (pos (length m)) in
    let hl = ap length held ∙ length-append (contents r.ring) (frame m) in
    let (r', b', run, got) =
      loop-Received ms k (taken r m) (retrieve b (length m + 4)) rest bv valid p
        (omega (arith, ap length left)) left (omega arith) (omega arith) (omega arith) in
    (
      r',
      b',
      loop-frame k r b m (frames ms ++ rest) v h e' ∙ run,
      record {
        on_ring =
            got.on_ring
            ∙ ap (λ x. x ++ frames ms) held
            ∙ append_assoc (contents r.ring) (frame m) (frames ms);
        counted = got.counted ∙ omega arith;
        left = got.left;
        ring_valid = got.ring_valid;
        buffer_valid = got.buffer_valid;
      },
    )

-- When the readable bytes, fewer than 2^31 of them, are whole messages and then less than one,
-- with its length there if anything of it is, and the ring has room for the messages and a byte to
-- spare, `onMessage` ends with every message on the ring, whole and in order, and counted, and
-- leaves the rest for later.
pub on_message-Received :
    (ms : List (List ℕ)) (r : Receiver) (b : Buffer) (rest : List ℕ)
    → Buffer.Inv.IsValid b
    → IsValid r.ring
    → IsPartial rest
    → length (Buffer.Inv.contents b) < 2 ^ 31
    → Buffer.Inv.contents b ≡ frames ms ++ rest
    → length (contents r.ring) + length (frames ms) ≤ r.ring.size
    → r.msg_count < 2 ^ 32
    → (r' : Receiver) × (b' : Buffer) × (on_message r b ≡ some (r', b')) × Received r ms rest r' b'
unfolding on_message
on_message-Received ms r b rest v w p h e room c =
    let l = ap length e ∙ length-append (frames ms) rest in
    loop-Received ms (suc (readable_bytes b)) r b rest v w p h e room c
      (omega (arith, length-contents v, frames-length ms))
