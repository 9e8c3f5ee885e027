-- ===== src/Receiver/Stuck.antt =====
-- Receiver: a length of -4 from the network.
use network_ydxlib.Base.{ℕ, zero, suc, ◌^◌, ◌≤◌, ◌<◌, ◌≡◌, refl, false, none, ◌==◌, arith, not-eq}
use network_ydxlib.Base.Int.{negsuc, ltb_ℤ}
use network_ydxlib.Base.Words.{sub_size, int_of_size}
use network_ydxlib.Buffer.{Buffer, readable_bytes, retrieve}
use network_ydxlib.Buffer.Inv.{IsValid}
use network_ydxlib.Stream.{int_size}
use network_ydxlib.Receiver.{Receiver, message_len, on_message_loop, on_message}

retrieve-none : (b : Buffer) → IsValid b → 4 ≤ readable_bytes b → retrieve b 0 ≡ b
unfolding retrieve
retrieve-none b v h = ground (arith, v.ordered, v.inside, v.small)

loop-stuck :
    (k : ℕ) (r : Receiver) (b : Buffer)
    → IsValid b
    → 4 ≤ readable_bytes b
    → readable_bytes b < 2 ^ 31
    → message_len b ≡ negsuc 3
    → on_message_loop k r b ≡ none
unfolding on_message_loop
loop-stuck zero r b v h g e = refl
loop-stuck (suc k) r b v h g e =
    let some_left : (readable_bytes b == 0) ≡ false =
      not-eq (readable_bytes b) 0 (λ z. omega (arith, z)) in
    let whole : ltb_ℤ (int_of_size (sub_size (readable_bytes b) int_size)) (negsuc 3) ≡ false =
      ground arith in
    rw (e, some_left, whole, retrieve-none b v h) (loop-stuck k _ b v h g e)

-- When the int at the front of the readable bytes is -4, `onMessage` takes nothing from the buffer and
-- never ends: no number of rounds is enough.
pub on_message_loop-stuck :
    (k : ℕ) (r : Receiver) (b : Buffer)
    → IsValid b
    → 4 ≤ readable_bytes b
    → readable_bytes b < 2 ^ 31
    → message_len b ≡ negsuc 3
    → (on_message_loop k r b ≡ none) × (on_message r b ≡ none)
unfolding on_message
on_message_loop-stuck k r b v h g e =
    (loop-stuck k r b v h g e, loop-stuck (suc (readable_bytes b)) r b v h g e)
