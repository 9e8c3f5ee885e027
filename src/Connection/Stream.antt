-- ===== src/Connection/Stream.antt =====
-- TcpConnection: the bytes given to `send` reach the socket complete and in order, and the channel
-- waits for room to write exactly while there are bytes to write.
use network_ydxlib.Base.{
  ℕ, ◌+◌, ◌-◌, ◌^◌, ◌≤◌, ◌<◌, ◌≡◌, ◌≢◌, refl, sym, ap, ap₂, ◌∙◌, subst, inl, inr, ◌⊎◌, true, false,
  not, ◌&&◌, Option, some, List, [], ◌∷◌, ◌++◌, arith, tests, ltb, ◌==◌, if◌then◌else◌, length,
  take, drop, length-append, length-drop, append_assoc, append-nil, take-append-drop, Bool-cases,
  not-eq, ==_iff,
}
use network_ydxlib.Base.Slices.{take_all}
use network_ydxlib.Base.Words.{sub_size}
use network_ydxlib.Buffer.{Buffer, readable_bytes, append}
use network_ydxlib.Buffer.Inv.{IsValid, contents, contents-append, length-contents}
use network_ydxlib.Channel.{Channel, is_writing}
use network_ydxlib.Poller.{
  Poller, perform, enable_writing, disable_writing, update_channel, update_by, new_events,
}
use network_ydxlib.Connection.{
  Connection, Write, wrote, refused, Errno, ask, is_fault, want_writing, keep_rest, send_direct,
  send,
}

-- All bytes that the connection has taken over: those written and those still kept.
abbrev pub stream : Connection → List ℕ
stream c = c.accepted ++ contents c.output

pub record IsSound (c : Connection) : Type 0 where
  pub valid : IsValid c.output
  pub waits : is_writing c.chan ≡ not (readable_bytes c.output == 0)

pub writing-enable :
    (r : Poller) (p : ℕ) (ch : Channel) → is_writing (perform enable_writing r p ch).1 ≡ true
unfolding perform update_channel update_by is_writing new_events
writing-enable r p ch = ground arith

pub writing-disable :
    (r : Poller) (p : ℕ) (ch : Channel) → is_writing (perform disable_writing r p ch).1 ≡ false
unfolding perform update_channel update_by is_writing new_events
writing-disable r p ch = ground arith

want_writing_lem :
    (c : Connection)
    → (is_writing (want_writing c).chan ≡ true)
      × ((want_writing c).output ≡ c.output)
      × ((want_writing c).accepted ≡ c.accepted)
unfolding want_writing ask
want_writing_lem c = ground (arith, writing-enable c.poller c.address c.chan)

keep_rest-of :
    (c : Connection) (xs : List ℕ) (n k : ℕ) (b : Buffer)
    → append c.output (take k (drop n xs)) ≡ some b
    → keep_rest c xs n k ≡ some (want_writing (record c { output = b }))
unfolding keep_rest
keep_rest-of c xs n k b e = rw (e, keep_rest)

waiting-IsSound :
    (c : Connection)
    → IsValid c.output
    → is_writing c.chan ≡ true
    → 0 < readable_bytes c.output
    → IsSound c
waiting-IsSound c v w h = record { valid = v; waits = ground (arith, w) }

-- What is left of the data, if anything, comes behind the bytes kept, and the channel then waits.
keep_rest_lem :
    (c : Connection) (xs : List ℕ) (n k : ℕ)
    → IsValid c.output
    → n + k ≡ length xs
    → 0 < k
    → c.output.writer_index + length xs < 2 ^ 63
    → (c' : Connection) × (keep_rest c xs n k ≡ some c')
      × (contents c'.output ≡ contents c.output ++ drop n xs)
      × (c'.accepted ≡ c.accepted)
      × IsSound c'
keep_rest_lem c xs n k v e pos room =
    let rest = take_all (drop n xs) k (omega (arith, length-drop n xs)) in
    let (b, done, held, bv) =
      contents-append c.output (take k (drop n xs)) v
        (omega (arith, ap length rest, length-drop n xs)) in
    let (wr, out, acc) = want_writing_lem (record c { output = b }) in
    let held' = held ∙ ap (λ t. contents c.output ++ t) rest in
    let count = ap length held' ∙ length-append (contents c.output) (drop n xs) in
    (
      want_writing (record c { output = b }),
      keep_rest-of c xs n k b done,
      ap contents out ∙ held',
      acc,
      waiting-IsSound (want_writing (record c { output = b })) (subst IsValid (sym out) bv) wr
          (rw out (omega (arith, count, length-contents bv, length-drop n xs))),
    )

-- A `write` takes no more than it is given.
abbrev pub Within : Write → List ℕ → Type 0
Within (wrote n) xs = n ≤ length xs
Within (refused e) xs = Unit {0}

-- What `send` takes over: nothing if the write that it makes finds the peer gone.
unfoldable pub taken : Connection → Write → List ℕ → List ℕ
taken c (wrote n) xs = xs
taken c (refused e) xs = if readable_bytes c.output == 0 && is_fault e then [] else xs

record Sent (c : Connection) (xs : List ℕ) (c' : Connection) : Type 0 where
  pub bytes : stream c' ≡ stream c ++ xs
  pub sound : IsSound c'

-- The data, or its end, is kept.
send-kept :
    (c : Connection) (xs : List ℕ) (n k : ℕ)
    → IsValid c.output
    → n + k ≡ length xs
    → 0 < k
    → c.output.writer_index + length xs < 2 ^ 63
    → let d : Connection = record c { accepted = c.accepted ++ take n xs } in
      (n ≡ 0) ⊎ (contents c.output ≡ [])
      → (c' : Connection) × (keep_rest d xs n k ≡ some c') × Sent c xs c'
send-kept c xs n k v e pos room o =
    let d : Connection = record c { accepted = c.accepted ++ take n xs } in
    let (c', done, held, acc, sound) = keep_rest_lem d xs n k v e pos room in
    (c', done, record { bytes = ap₂ ◌++◌ acc held ∙ regroup o; sound = sound })
  where
    regroup :
        (n ≡ 0) ⊎ (contents c.output ≡ [])
        → (c.accepted ++ take n xs) ++ (contents c.output ++ drop n xs)
          ≡ (c.accepted ++ contents c.output) ++ xs
    regroup (inl z) =
        rw z (rw (append-nil c.accepted) (sym (append_assoc c.accepted (contents c.output) xs)))
    regroup (inr z) = rw z (
        append_assoc c.accepted (take n xs) (drop n xs)
        ∙ ap₂ ◌++◌ (sym (append-nil c.accepted)) (take-append-drop n xs))

-- All the data is kept.
send-kept_all :
    (c : Connection) (xs : List ℕ)
    → IsValid c.output
    → 0 < length xs
    → c.output.writer_index + length xs < 2 ^ 63
    → (c' : Connection) × (keep_rest c xs 0 (length xs) ≡ some c') × Sent c xs c'
send-kept_all c xs v pos room =
    let (c', done, held, acc, sound) = keep_rest_lem c xs 0 (length xs) v (omega arith) pos room in
    (
      c',
      done,
      record {
        bytes = ap₂ ◌++◌ acc held ∙ sym (append_assoc c.accepted (contents c.output) xs);
        sound = sound;
      },
    )

Sent-nothing : (c : Connection) (xs : List ℕ) → IsSound c → length xs ≡ 0 → Sent c xs c
Sent-nothing c [] s e = record { bytes = sym (append-nil (stream c)); sound = s }
Sent-nothing c (x ∷ xs) s e = absurd (omega arith)

-- With nothing kept, and with something kept.
abbrev Sends : Connection → List ℕ → Write → Option Connection → Type 0
Sends c xs w r = (c' : Connection) × (r ≡ some c') × Sent c (taken c w xs) c'

taken-behind :
    (c : Connection) (w : Write) (xs : List ℕ) → readable_bytes c.output ≢ 0 → taken c w xs ≡ xs
unfolding taken
taken-behind c (wrote n) xs h = refl
taken-behind c (refused e) xs h = rw (not-eq (readable_bytes c.output) 0 h)

module _ (c : Connection) (xs : List ℕ) (s : IsSound c)
    (room : c.output.writer_index + length xs < 2 ^ 63) where
  send-wrote :
      (n : ℕ)
      → n ≤ length xs
      → contents c.output ≡ []
      → Sends c xs (wrote n) (send_direct c xs (wrote n))
  unfolding send_direct taken
  send-wrote n h none_kept =
      let left : sub_size (length xs) n ≡ length xs - n = omega arith in
      elim (Bool-cases (ltb 0 (length xs - n))) [
        | inl more ↦
            let pos : 0 < length xs - n = omega (tests, more) in
            let sum : n + (length xs - n) ≡ length xs = omega arith in
            rw (left, more) (send-kept c xs n (length xs - n) s.valid sum pos room (inr none_kept))
        | inr all ↦
            rw (left, all)
              (
                record c { accepted = c.accepted ++ take n xs },
                refl,
                record {
                  bytes =
                      ap₂ ◌++◌ (ap (λ t. c.accepted ++ t) (take_all xs n (ground arith))) none_kept
                      ∙ append-nil (c.accepted ++ xs)
                      ∙ ap (λ t. t ++ xs) (sym (append-nil c.accepted))
                      ∙ ap (λ t. (c.accepted ++ t) ++ xs) (sym none_kept);
                  sound = record { valid = s.valid; waits = s.waits };
                },
              )
      ]

  send-refused :
      (e : Errno)
      → readable_bytes c.output ≡ 0
      → Sends c xs (refused e) (send_direct c xs (refused e))
  unfolding send_direct taken
  send-refused e z = elim (Bool-cases (is_fault e)) [
    | inl bad ↦ rw (z, bad) (c, refl, Sent-nothing c [] s refl)
    | inr good ↦ elim (Bool-cases (ltb 0 (length xs))) [
      | inl more ↦ rw (z, good, more) (send-kept_all c xs s.valid (omega (tests, more)) room)
      | inr all ↦ rw (z, good, all) (c, refl, Sent-nothing c xs s (ground arith))
    ]
  ]

  send-behind : (w : Write) → readable_bytes c.output ≢ 0 → Sends c xs w (send c xs w)
  unfolding send
  send-behind w ne = elim (Bool-cases (ltb 0 (length xs))) [
    | inl more ↦
        rw (not-eq (readable_bytes c.output) 0 ne, more, taken-behind c w xs ne)
          (send-kept_all c xs s.valid (omega (tests, more)) room)
    | inr all ↦
        rw (not-eq (readable_bytes c.output) 0 ne, all, taken-behind c w xs ne)
          (c, refl, Sent-nothing c xs s (ground arith))
  ]

  send-at_once :
      (w : Write) → Within w xs → readable_bytes c.output ≡ 0 → Sends c xs w (send_direct c xs w)
  send-at_once (wrote n) h z =
      send-wrote n h (no_bytes (contents c.output) (length-contents s.valid ∙ z))
    where
      no_bytes : (ys : List ℕ) → length ys ≡ 0 → ys ≡ []
      no_bytes [] e = refl
      no_bytes (y ∷ ys) e = absurd (omega arith)
  send-at_once (refused e) h z = send-refused e z

-- On a connection whose channel waits for room to write exactly while bytes are kept, and with an
-- output buffer that can be indexed, `send` never fails, if the write takes at most the data. The
-- bytes that the socket has accepted, followed by those that are kept, are those of before,
-- followed by all of the data; only if nothing was kept and the write finds that the peer is gone
-- is the data dropped, and then all of it. The channel waits for room to write exactly while bytes
-- are kept.
pub send_lem :
    (c : Connection) (xs : List ℕ) (w : Write)
    → IsSound c
    → c.output.writer_index + length xs < 2 ^ 63
    → Within w xs
    → (c' : Connection) × (send c xs w ≡ some c')
      × (stream c' ≡ stream c ++ taken c w xs)
      × IsSound c'
unfolding send
send_lem c xs w s room h = elim (Bool-cases (readable_bytes c.output == 0)) [
  | inl z ↦
      let (c', done, sent) =
        send-at_once c xs s room w h ((==_iff (readable_bytes c.output) 0).0 z) in
      (c', direct z ∙ done, sent.bytes, sent.sound)
  | inr nz ↦
      let (c', done, sent) = send-behind c xs s room w (λ z. ground (arith, nz)) in
      (c', done, sent.bytes, sent.sound)
]
  where
    direct : (readable_bytes c.output == 0) ≡ true → send c xs w ≡ send_direct c xs w
    direct z = rw z
