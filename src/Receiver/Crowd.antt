-- ===== src/Receiver/Crowd.antt =====
-- Receiver: two threads in the wait of `receive`, and two messages.
use network_ydxlib.Base.{ℕ, ◌+◌, ◌≤◌, ◌≡◌, List, ◌++◌, arith, length}
use network_ydxlib.Buffer
use network_ydxlib.Buffer.{Buffer}
use network_ydxlib.Buffer.Inv
use network_ydxlib.Stream.Inv.{contents}
use network_ydxlib.Stream.Message.{frame, frames}
use network_ydxlib.Receiver.{Waiting, take_message, receive, wake_one, arrive, take_one, resume}
use network_ydxlib.Receiver.Wait.{Reach, here, next, arrives, resumes, IsCounted, Reach-IsCounted}

first_wakes :
    (w : Waiting) (b : Buffer)
    → w.asleep ≡ 2
    → w.woken ≡ 0
    → w.receiver.msg_count ≡ 0
    → ((arrive w b).asleep ≡ 1) × ((arrive w b).woken ≡ 1) × ((arrive w b).receiver.msg_count ≡ 1)
unfolding arrive wake_one take_message
first_wakes w b a k z = ground (arith, a, k, z)

second_wakes_none :
    (w : Waiting) (b : Buffer)
    → w.asleep ≡ 1
    → w.woken ≡ 1
    → w.receiver.msg_count ≡ 1
    → ((arrive w b).asleep ≡ 1) × ((arrive w b).woken ≡ 1) × ((arrive w b).receiver.msg_count ≡ 2)
unfolding arrive wake_one take_message
second_wakes_none w b a k z = ground (arith, a, k, z)

resume-one :
    (w : Waiting)
    → w.asleep ≡ 1
    → w.woken ≡ 1
    → w.receiver.msg_count ≡ 2
    → ((resume w).asleep ≡ 1) × ((resume w).woken ≡ 0) × (1 ≤ (resume w).receiver.msg_count)
unfolding resume take_one receive
resume-one w a k z = ground (arith, a, k, z)

-- Let two threads be in the wait of `receive`, none be past it, and the ring, of less than 2^31
-- bytes, hold nothing, with a count of 0. When two whole messages that have room on the ring come in
-- before the first thread has the lock, and then it takes what it can, the second thread is still in
-- its wait, none is past it, and a message is on the ring.
pub two-lost :
    (w : Waiting) (b1 b2 : Buffer) (m1 m2 more1 more2 : List ℕ)
    → w.asleep ≡ 2
    → w.woken ≡ 0
    → IsCounted w.receiver
    → w.receiver.msg_count ≡ 0
    → Buffer.Inv.IsValid b1
    → Buffer.Inv.contents b1 ≡ frame m1 ++ more1
    → Buffer.Inv.IsValid b2
    → Buffer.Inv.contents b2 ≡ frame m2 ++ more2
    → length (contents w.receiver.ring) + length (frame m1) ≤ w.receiver.ring.size
    → length (contents (arrive w b1).receiver.ring) + length (frame m2)
      ≤ (arrive w b1).receiver.ring.size
    → let t = resume (arrive (arrive w b1) b2) in
      (t.asleep ≡ 1)
      × (t.woken ≡ 0)
      × ((messages : List (List ℕ)) × (contents t.receiver.ring ≡ frames messages)
          × (1 ≤ length messages))
two-lost w b1 b2 m1 m2 more1 more2 a k c z v1 e1 v2 e2 room1 room2 =
    let (a1, k1, z1) = first_wakes w b1 a k z in
    let (a2, k2, z2) = second_wakes_none (arrive w b1) b2 a1 k1 z1 in
    let (a3, k3, z3) = resume-one (arrive (arrive w b1) b2) a2 k2 z2 in
    let steps : Reach 2 w (resume (arrive (arrive w b1) b2)) =
      next (next (next here (arrives b1 m1 more1 v1 e1 room1)) (arrives b2 m2 more2 v2 e2 room2))
        (resumes (omega (arith, k2))) in
    let d = Reach-IsCounted c steps in (a3, k3, (d.messages, d.on_ring, omega (arith, z3, d.count)))
