-- ===== src/Timers/Erase.antt =====
-- TimerSet: taking the entry of one timer out of the set.
use network_ydxlib.Base.{
  ℕ, ◌≡◌, ◌≢◌, sym, ap, ap₂, ◌∙◌, some-inj, subst, inl, inr, ◌&&◌, true, false, Bool-cases, Option,
  some, List, [], ◌∷◌, ◌==◌, if◌then◌else◌, arith, eq_refl, ==_iff,
}
use network_ydxlib.Timers.{Timer, erase_entry}
use network_ydxlib.Timers.Expiry.{AllAfter, IsSorted, AreAddresses}
use network_ydxlib.Timers.Live.{Lacks, Distinct, Live}

-- Without the entry of the timer at `p`.
pub record Erased (f : ℕ → Option Timer) (p : ℕ) (xs ys : List (ℕ × ℕ)) : Type 0 where
  pub gone : Lacks p ys
  pub lacks : (q : ℕ) → Lacks q xs → Lacks q ys
  pub after : (z : ℕ × ℕ) → AllAfter z xs → AllAfter z ys
  pub sorted : IsSorted ys
  pub bounded : AreAddresses ys
  pub distinct : Distinct ys
  pub live : Live f ys

pub erase-Erased :
    (f : ℕ → Option Timer) (p : ℕ) (t : Timer) (xs : List (ℕ × ℕ))
    → f p ≡ some t
    → IsSorted xs
    → AreAddresses xs
    → Distinct xs
    → Live f xs
    → Erased f p xs (erase_entry (t.expiration, p) xs)
unfolding erase_entry
erase-Erased f p t [] e s b d v = record {
  gone = tt;
  lacks = λ q l. l;
  after = λ z a. a;
  sorted = tt;
  bounded = tt;
  distinct = tt;
  live = tt;
}
erase-Erased f p t (x ∷ xs) e (a, s) (bound, b) (l, d) ((u, g, h), v) =
    elim (Bool-cases (p == x.1)) [
      | inl same ↦
          let here : p ≡ x.1 = (==_iff p x.1).0 same in
          let found : u ≡ t = some-inj (sym g ∙ ap f (sym here) ∙ e) in
          let when : t.expiration ≡ x.0 = ap (λ w. w.expiration) (sym found) ∙ h in
          let hit : ((t.expiration == x.0) && (p == x.1)) ≡ true =
            ap₂ (λ c e. c && e) (ap (λ n. n == x.0) when ∙ eq_refl x.0) same in
          subst (λ c. Erased f p (x ∷ xs) (if c then xs else x ∷ erase_entry (t.expiration, p) xs))
            (sym hit)
            (record {
              gone = subst (λ q. Lacks q xs) (sym here) l;
              lacks = λ q m. m.1;
              after = λ z m. m.1;
              sorted = s;
              bounded = b;
              distinct = d;
              live = v;
            })
      | inr other ↦
          let r = erase-Erased f p t xs e s b d v in
          let miss : ((t.expiration == x.0) && (p == x.1)) ≡ false = ground (arith, other) in
          subst (λ c. Erased f p (x ∷ xs) (if c then xs else x ∷ erase_entry (t.expiration, p) xs))
            (sym miss)
            (record {
              gone = (λ same. apart other same, r.gone);
              lacks = λ q m. (m.0, r.lacks q m.1);
              after = λ z m. (m.0, r.after z m.1);
              sorted = (r.after x a, r.sorted);
              bounded = (bound, r.bounded);
              distinct = (r.lacks x.1 l, r.distinct);
              live = ((u, g, h), r.live);
            })
    ]
  where
    apart : (p == x.1) ≡ false → p ≢ x.1
    apart e same = ground (arith, e, same)
