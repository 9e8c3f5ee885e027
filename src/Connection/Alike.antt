-- ===== src/Connection/Alike.antt =====
-- TcpConnection: calls that leave what the user is told, the state and the registration alone.
use network_ydxlib.Base.{
  ℕ, ◌≡◌, refl, ap, ◌∙◌, subst, inl, inr, some-inj, Bool, true, false, ◌&&◌, not, Option, none,
  some, List, ◌++◌, take, drop, length, arith, if◌then◌else◌, Bool-cases, ltb, ◌==◌,
}
use network_ydxlib.Base.Words.{sub_size}
use network_ydxlib.Buffer.{Buffer, readable_bytes, retrieve, peek, append}
use network_ydxlib.Channel.{added, is_writing, meets, mask_or, mask_minus, is_none_event}
use network_ydxlib.Poller.{disable_writing, perform, update_channel, update_by, new_events}
use network_ydxlib.Connection.{
  Connection, ask, Write, wrote, refused, send, handle_write, wrote_out, keep_rest, send_direct,
  want_writing, is_fault,
}
use network_ydxlib.Connection.Told.{told, At, built}

-- The connections agree in what the user, the state and the channel's registration show.
pub record Alike (c d : Connection) : Type 0 where
  pub effects : d.effects ≡ c.effects
  pub state : d.state ≡ c.state
  pub index : d.chan.index ≡ c.chan.index
  pub reading : d.chan.events.epollin ≡ c.chan.events.epollin

pub Alike-At : {c d : Connection} → Alike c d → At c → At d
Alike-At k a = built (ap told k.effects) k.state k.index k.reading a

pub Alike-trans : {c d e : Connection} → Alike c d → Alike d e → Alike c e
Alike-trans k l = record {
  effects = l.effects ∙ k.effects;
  state = l.state ∙ k.state;
  index = l.index ∙ k.index;
  reading = l.reading ∙ k.reading;
}

pub same_all : (c : Connection) → Alike c c
same_all c = record { effects = refl; state = refl; index = refl; reading = refl }

-- A request that keeps the channel registered and reading.
pub want-Alike : (c : Connection) → c.chan.index ≡ added → Alike c (want_writing c)
unfolding want_writing ask perform update_channel update_by new_events mask_or is_none_event meets
want-Alike c e = record {
  effects = ground (arith, e);
  state = ground (arith, e);
  index = ground (arith, e);
  reading = ground (arith, e);
}

pub less-Alike :
    (c : Connection)
    → c.chan.index ≡ added
    → c.chan.events.epollin ≡ true
    → Alike c (ask disable_writing c)
unfolding ask perform update_channel update_by new_events mask_minus is_none_event meets
less-Alike c e r = record {
  effects = refl;
  state = refl;
  index = ground (arith, e, r);
  reading = ground (arith, e, r);
}

pub wrote_by :
    (b : Bool) (c c' : Connection)
    → Alike c c'
    → c.chan.index ≡ added
    → c.chan.events.epollin ≡ true
    → Alike c (if b then ask disable_writing c' else c')
wrote_by true c c' k i r = Alike-trans k (less-Alike c' (k.index ∙ i) (k.reading ∙ r))
wrote_by false c c' k i r = k

pub wrote_out-Alike :
    (c : Connection) (n : ℕ)
    → c.chan.index ≡ added
    → c.chan.events.epollin ≡ true
    → Alike c (wrote_out c n)
unfolding wrote_out
wrote_out-Alike c n i r =
    let b = retrieve c.output n in
    let c' : Connection = record c {
      accepted = c.accepted ++ take n (peek c.output (readable_bytes c.output));
      output = b;
    } in
    wrote_by (readable_bytes b == 0) c c'
      (record { effects = refl; state = refl; index = refl; reading = refl }) i r

pub handle_write-Alike :
    (c : Connection) (w : Write)
    → c.chan.index ≡ added
    → c.chan.events.epollin ≡ true
    → Alike c (handle_write c w)
unfolding handle_write
handle_write-Alike c (refused e) i r = same_all c
handle_write-Alike c (wrote n) i r = elim (Bool-cases (is_writing c.chan && ltb 0 n)) [
  | inl e ↦ rw e (wrote_out-Alike c n i r)
  | inr e ↦ rw e (same_all c)
]

pub handle_write-off :
    (c : Connection) (w : Write) → is_writing c.chan ≡ false → handle_write c w ≡ c
unfolding handle_write
handle_write-off c (refused e) h = refl
handle_write-off c (wrote n) h = rw h refl

pub kept_by :
    (c d : Connection) (o : Option Buffer)
    → c.chan.index ≡ added
    → elim o [ none ↦ none | some b ↦ some (want_writing (record c { output = b })) ] ≡ some d
    → Alike c d
kept_by c d none i e = absurd (cc e)
kept_by c d (some b) i e =
    let c' : Connection = record c { output = b } in
    let k : Alike c c' = record { effects = refl; state = refl; index = refl; reading = refl } in
    subst (Alike c) (some-inj e) (Alike-trans k (want-Alike c' i))

pub keep_rest-Alike :
    (c d : Connection) (xs : List ℕ) (n k : ℕ)
    → c.chan.index ≡ added
    → keep_rest c xs n k ≡ some d
    → Alike c d
unfolding keep_rest
keep_rest-Alike c d xs n k i e = kept_by c d (append c.output (take k (drop n xs))) i e

-- Either branch of a test.
pub either :
    {x y : Option Connection} {P : Type 0} (b : Bool) {d : Connection}
    → (x ≡ some d → P)
    → (y ≡ some d → P)
    → (if b then x else y) ≡ some d
    → P
either true f g e = f e
either false f g e = g e

pub send_direct-Alike :
    (c d : Connection) (xs : List ℕ) (w : Write)
    → c.chan.index ≡ added
    → send_direct c xs w ≡ some d
    → Alike c d
unfolding send_direct
send_direct-Alike c d xs (wrote n) i e =
    let c' : Connection = record c { accepted = c.accepted ++ take n xs } in
    let k : Alike c c' = record { effects = refl; state = refl; index = refl; reading = refl } in
    either (ltb 0 (sub_size (length xs) n))
      (λ h. Alike-trans k (keep_rest-Alike c' d xs n (sub_size (length xs) n) i h))
      (λ h. subst (Alike c) (some-inj h) k) e
send_direct-Alike c d xs (refused x) i e =
    either (not (is_fault x) && ltb 0 (length xs)) (λ h. keep_rest-Alike c d xs 0 (length xs) i h)
      (λ h. subst (Alike c) (some-inj h) (same_all c)) e

pub send-Alike :
    (c d : Connection) (xs : List ℕ) (w : Write)
    → c.chan.index ≡ added
    → send c xs w ≡ some d
    → Alike c d
unfolding send
send-Alike c d xs w i e =
    either (readable_bytes c.output == 0) (λ h. send_direct-Alike c d xs w i h)
      (λ h.
        either (ltb 0 (length xs)) (λ k. keep_rest-Alike c d xs 0 (length xs) i k)
          (λ k. subst (Alike c) (some-inj k) (same_all c)) h)
      e
