-- ===== src/Connector/Tries.antt =====
-- Connector: how long `connect` goes on, and what a second `start` loses.
use network_ydxlib.Base.{
  ℕ, ◌≡◌, ◌≢◌, refl, ap, ◌∙◌, sym, true, some, List, [], ◌∷◌, ◌++◌, append_assoc, if◌then◌else◌,
  not-eq,
}
use network_ydxlib.Channel.{Channel}
use network_ydxlib.Poller.{perform, enable_writing, update_channel, update_by, lookup}
use network_ydxlib.Poller.Sync.{lookup-insert}
use network_ydxlib.Connector.{
  disconnected, Connector, Attempt, Verdict, proceeds, retries, fails, verdict, Outcome, done,
  close, establish, new_channel, retry_by, settle, connect, start,
}

-- The descriptors of a list of attempts, the last one first.
abbrev pub latest : List Attempt → List ℕ
latest [] = []
latest (t ∷ ts) = latest ts ++ (t.fd ∷ [])

abbrev pub AllRetried : List Attempt → Type 0
AllRetried [] = Unit
AllRetried (t ∷ ts) = (verdict t.errno ≡ retries) × AllRetried ts

abbrev pub stays : Verdict → ℕ → List ℕ
stays proceeds fd = []
stays retries fd = []
stays fails fd = fd ∷ []

settle-Ended :
    (begin : Connector → Outcome) (v : Verdict) (t : Attempt) (c : Connector)
    → v ≢ retries
    → (d : Connector) × (settle begin v t c ≡ done d)
      × (d.opened ≡ c.opened)
      × (d.closed ≡ stays v t.fd ++ c.closed)
      × (d.handed ≡ c.handed)
unfolding settle establish
settle-Ended begin proceeds t c n = (establish t c, refl, refl, refl, refl)
settle-Ended begin retries t c n = absurd (n refl)
settle-Ended begin fails t c n = (close t.fd c, refl, refl, refl, refl)

settle-retries :
    (begin : Connector → Outcome) (v : Verdict) (t : Attempt) (c : Connector)
    → v ≡ retries
    → c.wanted ≡ true
    → settle begin v t c
      ≡ begin (record c { closed = t.fd ∷ c.closed; state = disconnected; wanted = true })
unfolding settle retry_by
settle-retries begin v t c e w =
    let d : Connector = record (close t.fd c) { state = disconnected } in
    rw e (ap (λ b. if b then begin (record d { wanted = true }) else done d) w)

-- While it is wanted, `connect` repeats exactly the attempts whose error allows it, closing the
-- socket of each, and returns with the first other one: its socket stays open if the connection is
-- under way, and is closed if not. Nothing is given to the callback.
pub connect-Ended :
    (ts : List Attempt) (t : Attempt) (more : List Attempt) (c : Connector)
    → c.wanted ≡ true
    → AllRetried ts
    → verdict t.errno ≢ retries
    → (d : Connector) × (connect (ts ++ (t ∷ more)) c ≡ done d)
      × (d.opened ≡ t.fd ∷ (latest ts ++ c.opened))
      × (d.closed ≡ stays (verdict t.errno) t.fd ++ (latest ts ++ c.closed))
      × (d.handed ≡ c.handed)
unfolding connect
connect-Ended [] t more c w r n =
    settle-Ended (λ d. connect more d) (verdict t.errno) t (record c { opened = t.fd ∷ c.opened }) n
connect-Ended (u ∷ ts) t more c w r n =
    let c' : Connector = record c {
      opened = u.fd ∷ c.opened;
      closed = u.fd ∷ c.closed;
      state = disconnected;
      wanted = true;
    } in
    let (d, e, o, cl, h) = connect-Ended ts t more c' refl r.1 n in
    (
      d,
      settle-retries (λ k. connect (ts ++ (t ∷ more)) k) (verdict u.errno) u
            (record c { opened = u.fd ∷ c.opened }) r.0 w
          ∙ e,
      o ∙ ap (λ l. t.fd ∷ l) (sym (append_assoc (latest ts) (u.fd ∷ []) c.opened)),
      cl
          ∙ ap (λ l. stays (verdict t.errno) t.fd ++ l)
              (sym (append_assoc (latest ts) (u.fd ∷ []) c.closed)),
      h,
    )

-- A second `start` while a connection is under way loses the first one's socket: the new channel
-- takes the place of the old, whose socket is neither closed nor given to anyone, and the poller
-- still maps its descriptor to the address of the channel that is gone.
pub start-lost :
    (t : Attempt) (more : List Attempt) (c : Connector) (p : ℕ) (ch : Channel)
    → c.chan ≡ some (p, ch)
    → lookup ch.fd c.poller.channels ≡ some p
    → verdict t.errno ≡ proceeds
    → t.fd ≢ ch.fd
    → (d : Connector) × (new_chan : Channel) × (start (t ∷ more) c ≡ done d)
      × (d.chan ≡ some (t.address, new_chan))
      × (new_chan.fd ≡ t.fd)
      × (d.closed ≡ c.closed)
      × (d.handed ≡ c.handed)
      × (lookup ch.fd d.poller.channels ≡ some p)
unfolding start connect settle establish perform update_channel update_by
start-lost t more c p ch e l v n =
    let c' : Connector = record c { wanted = true; opened = t.fd ∷ c.opened } in
    let a = perform enable_writing c.poller t.address (new_channel t.fd) in
    (
      establish t c',
      a.1,
      rw v refl,
      refl,
      refl,
      refl,
      refl,
      rw (lookup-insert t.fd t.address ch.fd c.poller.channels, not-eq t.fd ch.fd n) l,
    )
