-- ===== src/AsyncLog/Rounds.antt =====
-- AsyncLogging: the turns of the writing thread.
use network_ydxlib.Base.{
  ℕ, min, ◌+◌, ◌≤◌, ◌≡◌, inl, inr, refl, sym, ap, ap₂, ◌∙◌, Bool, Bool-cases, Option, none, some,
  List, [], ◌∷◌, ◌++◌, append_assoc, append-nil, ltb, if◌then◌else◌, arith, length, take,
  length-append, length-take,
}
use network_ydxlib.Log.{FixedBuffer, reset}
use network_ydxlib.AsyncLog.{
  AsyncLogging, Phase, testing, waiting, writing, finished, large_buffer, or_else, left_after,
  collect, collect_with, texts, pop_back, reset_popped, refill, keeps, drops, end_round, refill_all,
  write_out, turn, turn_in, leave,
}
use network_ydxlib.AsyncLog.Sound.{
  AreLarge, IsEmptyIf, missing, Supplied, IsSound, stream, texts-append, AreLarge-append,
  AreLarge-take,
}

or_else-IsEmptyIf :
    (o p : Option FixedBuffer)
    → IsEmptyIf o
    → IsEmptyIf p
    → missing p ≡ 0
    → IsEmptyIf (or_else o p)
      × IsEmptyIf (left_after o p)
      × (missing (or_else o p) ≡ 0)
      × (missing (left_after o p) ≡ missing o)
or_else-IsEmptyIf none none h k m = absurd (omega (arith, m))
or_else-IsEmptyIf none (some b) h k m = (k, tt, refl, refl)
or_else-IsEmptyIf (some b) p h k m = (h, k, refl, m)

collect_with-stream :
    (b : FixedBuffer) (a : AsyncLogging)
    → IsSound a
    → IsEmptyIf (some b)
    → missing a.new2 ≡ 0
    → a.to_write ≡ []
    → (c : AsyncLogging) × (collect_with (some b) a ≡ some c)
      × IsSound c
      × (stream c ≡ stream a)
      × (c.dropped ≡ a.dropped)
unfolding collect_with
collect_with-stream b a s h m w =
    let (next_ok, new2_ok, full, left) =
      or_else-IsEmptyIf a.next a.new2 s.next_empty s.new2_empty m in
    (
      _,
      refl,
      record {
        current_large = (h.0, omega (arith, ap length h.1));
        next_empty = next_ok;
        new1_empty = tt;
        new2_empty = new2_ok;
        buffers_large = s.to_write_large;
        to_write_large =
            AreLarge-append a.buffers (a.current ∷ []) s.buffers_large (s.current_large, tt);
        next_used = omega (arith, full);
        supplied = omega (arith, left, s.next_used, length-append a.buffers (a.current ∷ []));
      },
      ap (λ l. a.output ++ l)
          (ap₂ (λ l r. l ++ r)
              (texts-append a.buffers (a.current ∷ [])
                ∙ ap (λ l. texts a.buffers ++ l) (append-nil a.current.text))
              (ap₂ (λ l r. texts l ++ r) w h.1)
            ∙ append-nil (texts a.buffers ++ a.current.text)
            ∙ sym (ap (λ l. texts l ++ (texts a.buffers ++ a.current.text)) w)),
      refl,
    )

-- The critical section takes over all full buffers, and finds the spare ones that it needs.
collect-stream :
    (o : Option FixedBuffer) (a : AsyncLogging)
    → IsSound a
    → IsEmptyIf o
    → Supplied waiting o a.new2 a.to_write
    → (b : AsyncLogging) × (collect_with o a ≡ some b)
      × IsSound b
      × (stream b ≡ stream a)
      × (b.dropped ≡ a.dropped)
collect-stream none a s h r = absurd (omega (arith, r.0))
collect-stream (some b) a s h r = collect_with-stream b a s h r.1 r.2

pop_back-some :
    (b : FixedBuffer) (bs : List FixedBuffer)
    → AreLarge (b ∷ bs)
    → (l : FixedBuffer) × (cs : List FixedBuffer) × (pop_back (b ∷ bs) ≡ some (l, cs))
      × (l.size ≡ large_buffer)
      × AreLarge cs
      × (length cs ≡ length bs)
unfolding pop_back
pop_back-some b [] h = (b, [], refl, h.0.0, tt, refl)
pop_back-some b (c ∷ bs) h =
    let (l, cs, e, sz, large, n) = pop_back-some c bs h.1 in
    (
      l,
      b ∷ cs,
      ap
          (λ (o : Option (FixedBuffer × List FixedBuffer)). elim o [
            | none ↦ some (b, [])
            | some (l, cs) ↦ some (l, b ∷ cs)
          ])
          e,
      sz,
      (h.0, large),
      omega (arith, n),
    )

refill-some :
    (o : Option FixedBuffer) (bs : List FixedBuffer)
    → IsEmptyIf o
    → AreLarge bs
    → missing o ≤ length bs
    → (b : FixedBuffer) × (cs : List FixedBuffer) × (refill o bs ≡ some (b, cs))
      × IsEmptyIf (some b)
      × AreLarge cs
      × (length cs + missing o ≡ length bs)
unfolding refill reset_popped reset
refill-some (some b) bs h k n = (b, bs, refl, h, k, omega arith)
refill-some none [] h k n = absurd (omega (arith, n))
refill-some none (b ∷ bs) h k n =
    let (l, cs, e, sz, large, m) = pop_back-some b bs k in
    (reset l, cs, ap reset_popped e, (sz, refl), large, omega (arith, m))

-- The spare buffers are there when the thread needs them, two at most.
refill_all-some :
    (p q : Option FixedBuffer) (bs : List FixedBuffer) (a : AsyncLogging)
    → IsEmptyIf p
    → IsEmptyIf q
    → a.new2 ≡ q
    → AreLarge bs
    → missing p + missing q ≤ length bs
    → (b1 b2 : FixedBuffer) × (refill_all (refill p bs) a
        ≡ some (record a {
          new1 = some b1;
          new2 = some b2;
          to_write = [];
          flushes = a.flushes + 1;
          phase = testing;
        }))
      × IsEmptyIf (some b1)
      × IsEmptyIf (some b2)
unfolding refill_all end_round
refill_all-some p q bs a hp hq e large n =
    let (b1, cs, r1, empty1, large1, n1) = refill-some p bs hp large (omega (arith, n)) in
    let (b2, ds, r2, empty2, large2, n2) = refill-some q cs hq large1 (omega (arith, n, n1)) in
    (
      b1,
      b2,
      ap (λ o. refill_all o a) r1
          ∙ ap (λ o. end_round b1 (refill o cs) a) e
          ∙ ap (λ o. end_round b1 o a) r2,
      empty1,
      empty2,
    )

keeps-large : (bs : List FixedBuffer) → AreLarge bs → AreLarge (take 2 (keeps bs))
keeps-large bs h = elim (Bool-cases (ltb 25 (length bs))) [
  | inl e ↦ rw e (AreLarge-take 2 (take 2 bs) (AreLarge-take 2 bs h))
  | inr e ↦ rw e (AreLarge-take 2 bs h)
]

keeps-length : (bs : List FixedBuffer) → length (take 2 (keeps bs)) ≡ min 2 (length bs)
keeps-length bs = elim (Bool-cases (ltb 25 (length bs))) [
  | inl e ↦ rw e (omega (arith, length-take 2 (take 2 bs), length-take 2 bs))
  | inr e ↦ rw e (omega (arith, length-take 2 bs))
]

missing-le : (o : Option FixedBuffer) → missing o ≤ 1
missing-le none = omega arith
missing-le (some b) = omega arith

-- Without drops all that was to be written is in the output.
written-all :
    (out note rest : List ℕ) (bs : List FixedBuffer)
    → drops bs ≡ 0
    → (out ++ ((if ltb 25 (length bs) then note else []) ++ texts (keeps bs))) ++ rest
      ≡ out ++ (texts bs ++ rest)
written-all out note rest bs d = elim (Bool-cases (ltb 25 (length bs))) [
  | inl e ↦ absurd (ground (arith, e, d))
  | inr e ↦ rw e (append_assoc out (texts bs) rest)
]

module _ (notice : ℕ → List ℕ) where
  -- What a turn of the writing thread comes to.
  pub record Turned (a b : AsyncLogging) : Type 0 where
    pub sound : IsSound b
    pub dropped : a.dropped ≤ b.dropped
    pub kept : a.dropped ≡ b.dropped → stream b ≡ stream a

  write_out-Turned :
      (a : AsyncLogging)
      → IsSound a
      → missing a.new1 + missing a.new2 ≤ length a.to_write
      → (b : AsyncLogging) × (write_out notice a ≡ some b) × Turned a b
  unfolding write_out
  write_out-Turned a s h =
      let bs : List FixedBuffer = a.to_write in
      let note : List ℕ = notice (drops bs) in
      let (b1, b2, e, empty1, empty2) =
        refill_all-some a.new1 a.new2 (take 2 (keeps bs))
          (record a {
            output = a.output ++ ((if ltb 25 (length bs) then note else []) ++ texts (keeps bs));
            dropped = a.dropped + drops bs;
          })
          s.new1_empty s.new2_empty refl (keeps-large bs s.to_write_large)
          (omega (arith, h, keeps-length bs, missing-le a.new1, missing-le a.new2)) in
      (
        _,
        e,
        record {
          sound = record {
            current_large = s.current_large;
            next_empty = s.next_empty;
            new1_empty = empty1;
            new2_empty = empty2;
            buffers_large = s.buffers_large;
            to_write_large = tt;
            next_used = s.next_used;
            supplied = (refl, refl, refl);
          };
          dropped = omega arith;
          kept = λ d.
              written-all a.output note (texts a.buffers ++ a.current.text) bs (omega (arith, d));
        },
      )

  turn_in-Turned :
      (p : Phase) (a : AsyncLogging)
      → a.phase ≡ p
      → IsSound a
      → Supplied p a.new1 a.new2 a.to_write
      → (b : AsyncLogging) × (turn_in notice p a ≡ some b) × Turned a b
  unfolding turn_in collect leave
  turn_in-Turned testing a e s u = elim (Bool-cases a.running) [
    | inl r ↦ (
      record a { phase = waiting },
      ap (λ (r : Bool). some (if r then record a { phase = waiting } else leave a)) r,
      record {
        sound = record {
          current_large = s.current_large;
          next_empty = s.next_empty;
          new1_empty = s.new1_empty;
          new2_empty = s.new2_empty;
          buffers_large = s.buffers_large;
          to_write_large = s.to_write_large;
          next_used = s.next_used;
          supplied = u;
        };
        dropped = omega arith;
        kept = λ d. refl;
      },
    )
    | inr r ↦ (
      leave a,
      ap (λ (r : Bool). some (if r then record a { phase = waiting } else leave a)) r,
      record {
        sound = record {
          current_large = s.current_large;
          next_empty = s.next_empty;
          new1_empty = s.new1_empty;
          new2_empty = s.new2_empty;
          buffers_large = s.buffers_large;
          to_write_large = s.to_write_large;
          next_used = s.next_used;
          supplied = u.2;
        };
        dropped = omega arith;
        kept = λ d. refl;
      },
    )
  ]
  turn_in-Turned waiting a e s u =
      let (b, c, sound, same, d) = collect-stream a.new1 a s s.new1_empty u in
      (b, c, record { sound = sound; dropped = omega (arith, d); kept = λ k. same })
  turn_in-Turned writing a e s u = write_out-Turned a s u
  turn_in-Turned finished a e s u =
      (a, refl, record { sound = s; dropped = omega arith; kept = λ d. refl })

  pub turn-Turned :
      (a : AsyncLogging) → IsSound a → (b : AsyncLogging) × (turn notice a ≡ some b) × Turned a b
  unfolding turn
  turn-Turned a s = turn_in-Turned a.phase a refl s s.supplied
