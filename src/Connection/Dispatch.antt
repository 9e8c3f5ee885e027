-- ===== src/Connection/Dispatch.antt =====
-- TcpConnection: where the callbacks for a round of events leave what its user is told.
use network_ydxlib.Base.{
  ℕ, ◌≡◌, ◌⊎◌, refl, sym, ap, ◌∙◌, subst, inl, inr, some-inj, Bool, true, false, ◌&&◌, ◌||◌, not,
  Option, none, some, List, [], ◌∷◌, ◌++◌, arith, ◌==◌,
}
use network_ydxlib.Base.Int.{ℤ, pos, negsuc}
use network_ydxlib.Buffer.{Buffer, Readv, read_fd}
use network_ydxlib.Channel
use network_ydxlib.Channel.{
  Mask, Channel, Index, new, added, deleted, Callback, reads, writes, closes, errors, set_revents,
  is_writing, meets, mask_or, mask_minus, is_none_event, fire,
}
use network_ydxlib.Connection.{
  Connection, Write, handle_close, handle_read, read_done, handle_write,
}
use network_ydxlib.Connection.Events.{run_callback, run_callbacks, handle_event, handle_error}
use network_ydxlib.Connection.Told.{At, at-added}
use network_ydxlib.Connection.Calls.{Off, handle_close-At, message-At}
use network_ydxlib.Connection.Alike.{Alike-At, handle_write-Alike, handle_write-off, either}

-- A mask in which the kernel has epoll's documented HUP: the end of what can be read comes as IN too.
abbrev pub IsReported : Mask → Type 0
IsReported m = ((m.epollhup && not m.epollin) && (m.epollpri || m.epollrdhup)) ≡ false

-- After a callback: the channel is registered, or nothing is written any more.
abbrev pub Goes : Connection → Type 0
Goes c = At c × ((c.chan.index ≡ added) ⊎ Off c)

read_done-Goes :
    (on_message : Buffer → Buffer) (c d : Connection) (n : ℤ) (b : Buffer)
    → At c
    → c.chan.index ≡ added
    → read_done on_message c n b ≡ some d
    → Goes d
unfolding read_done
read_done-Goes on_message c d (pos n) b a i e =
    either (n == 0)
      (λ h. let (x, y) = handle_close-At (record c { input = b }) d a i h in (x, inr y))
      (λ h. subst Goes (some-inj h) (message-At (record c { input = on_message b }) a i, inl i)) e
read_done-Goes on_message c d (negsuc n) b a i e = subst Goes (some-inj e) (a, inl i)

read_by :
    (on_message : Buffer → Buffer) (c d : Connection) (o : Option (ℤ × ℕ × Buffer))
    → At c
    → c.chan.index ≡ added
    → elim o [ none ↦ none | some (n, saved, b) ↦ read_done on_message c n b ] ≡ some d
    → Goes d
read_by on_message c d none a i e = absurd (cc e)
read_by on_message c d (some (n, saved, b)) a i e = read_done-Goes on_message c d n b a i e

handle_read-Goes :
    (on_message : Buffer → Buffer) (c d : Connection) (r : Readv)
    → At c
    → c.chan.index ≡ added
    → handle_read on_message c r ≡ some d
    → Goes d
unfolding handle_read
handle_read-Goes on_message c d r a i e = read_by on_message c d (read_fd c.input r 0) a i e

write-Goes : (c : Connection) (w : Write) → Goes c → Goes (handle_write c w)
write-Goes c w (a, inl i) =
    let (_, _, r) = at-added a i in
    let k = handle_write-Alike c w i r in (Alike-At k a, inl (k.index ∙ i))
write-Goes c w (a, inr off) = subst Goes (sym (handle_write-off c w off.0)) (a, inr off)

module _ (on_message : Buffer → Buffer) (r : Readv) (w : Write) where
  abbrev run : List Callback → Option Connection → Option Connection
  run cbs o = run_callbacks on_message r w cbs o

  append-run :
      (xs ys : List Callback) (o : Option Connection) → run (xs ++ ys) o ≡ run ys (run xs o)
  unfolding run_callbacks
  append-run xs ys none = refl
  append-run [] ys (some c) = refl
  append-run (x ∷ xs) ys (some c) = append-run xs ys (run_callback on_message r w x c)

  parts_by :
      (ys : List Callback) (o : Option Connection) {p : Option Connection} {d : Connection}
      → p ≡ o
      → run ys p ≡ some d
      → (e : Connection) × (p ≡ some e) × (run ys (some e) ≡ some d)
  unfolding run_callbacks
  parts_by ys none q h = absurd (cc (sym (ap (run ys) q) ∙ h))
  parts_by ys (some e) q h = (e, q, sym (ap (run ys) q) ∙ h)

  -- A run that comes to its end is there after its first part.
  parts :
      (xs ys : List Callback) (c : Connection) {d : Connection}
      → run (xs ++ ys) (some c) ≡ some d
      → (e : Connection) × (run xs (some c) ≡ some e) × (run ys (some e) ≡ some d)
  unfolding run_callbacks
  parts xs ys c h = parts_by ys (run xs (some c)) refl (sym (append-run xs ys (some c)) ∙ h)

  run-nil : (o : Option Connection) {d : Connection} → run [] o ≡ some d → o ≡ some d
  unfolding run_callbacks
  run-nil none e = e
  run-nil (some c) e = e

  closes-Goes :
      (b is_set : Bool) (c d : Connection)
      → At c
      → c.chan.index ≡ added
      → run (fire b is_set closes) (some c) ≡ some d
      → At d × ((d.chan.index ≡ added) ⊎ ((b ≡ true) × Off d))
  unfolding run_callbacks run_callback
  closes-Goes false s c d a i e =
      (subst At (some-inj e) a, inl (subst (λ x. x.chan.index ≡ added) (some-inj e) i))
  closes-Goes true false c d a i e =
      (subst At (some-inj e) a, inl (subst (λ x. x.chan.index ≡ added) (some-inj e) i))
  closes-Goes true true c d a i e =
      let (x, off) = handle_close-At c d a i (run-nil (handle_close c) e) in (x, inr (refl, off))

  errors-same :
      (b is_set : Bool) (c d : Connection) → run (fire b is_set errors) (some c) ≡ some d → c ≡ d
  unfolding run_callbacks run_callback handle_error
  errors-same false s c d e = some-inj e
  errors-same true false c d e = some-inj e
  errors-same true true c d e = some-inj e

  reads-Goes :
      (b is_set : Bool) (c d : Connection)
      → At c
      → (c.chan.index ≡ added) ⊎ ((b ≡ false) × Off c)
      → run (fire b is_set reads) (some c) ≡ some d
      → Goes d
  unfolding run_callbacks run_callback
  reads-Goes false s c d a (inl i) e = subst Goes (some-inj e) (a, inl i)
  reads-Goes false s c d a (inr (_, w)) e = subst Goes (some-inj e) (a, inr w)
  reads-Goes true false c d a (inl i) e = subst Goes (some-inj e) (a, inl i)
  reads-Goes true s c d a (inr (h, w)) e = absurd (cc h)
  reads-Goes true true c d a (inl i) e =
      handle_read-Goes on_message c d r a i (run-nil (handle_read on_message c r) e)

  writes-Goes :
      (b is_set : Bool) (c d : Connection)
      → Goes c
      → run (fire b is_set writes) (some c) ≡ some d
      → Goes d
  unfolding run_callbacks run_callback
  writes-Goes false s c d g e = subst Goes (some-inj e) g
  writes-Goes true false c d g e = subst Goes (some-inj e) g
  writes-Goes true true c d g e = subst Goes (some-inj e) (write-Goes c w g)

  -- What was closed is not read from.
  quiet_reads :
      (m : Mask) {A B : Type 0}
      → IsReported m
      → A ⊎ (((m.epollhup && not m.epollin) ≡ true) × B)
      → A ⊎ (((m.epollin || m.epollpri || m.epollrdhup) ≡ false) × B)
  quiet_reads m ok (inl a) = inl a
  quiet_reads m ok (inr (h, b)) = inr (ground (arith, ok, h), b)

  pub handle_event-Goes :
      (m : Mask) (c d : Connection)
      → At c
      → c.chan.index ≡ added
      → IsReported m
      → handle_event on_message r w m c ≡ some d
      → Goes d
  unfolding handle_event Channel.handle_event
  handle_event-Goes m c d a i ok e =
      let c0 : Connection = record c { chan = set_revents c.chan m } in
      let cbs = c.chan.callbacks in
      let hup = m.epollhup && not m.epollin in
      let come = m.epollin || m.epollpri || m.epollrdhup in
      let written = fire m.epollout cbs.on_write writes in
      let read_on = fire come cbs.on_read reads ++ written in
      let (c1, e1, f1) =
        parts (fire hup cbs.on_close closes) (fire m.epollerr cbs.on_error errors ++ read_on) c0
          e in
      let (c2, e2, f2) = parts (fire m.epollerr cbs.on_error errors) read_on c1 f1 in
      let (c3, e3, f3) = parts (fire come cbs.on_read reads) written c2 f2 in
      let (a1, g1) = closes-Goes hup cbs.on_close c0 c1 a i e1 in
      let same = errors-same m.epollerr cbs.on_error c1 c2 e2 in
      let then_read : (c1.chan.index ≡ added) ⊎ ((come ≡ false) × Off c1) = quiet_reads m ok g1 in
      let g3 =
        reads-Goes come cbs.on_read c2 c3 (subst At same a1)
          (subst (λ x. (x.chan.index ≡ added) ⊎ ((come ≡ false) × Off x)) same then_read) e3 in
      writes-Goes m.epollout cbs.on_write c3 d g3 f3
