-- ===== src/Threads/Release.antt =====
-- Thread: each handle that pthread_create made is given back once.
use network_ydxlib.Base.{
  ℕ, ◌≡◌, refl, sym, ap, ap₂, ◌∙◌, subst, some-inj, Bool, true, false, ◌&&◌, not, some, List, [],
  ◌∷◌, ◌++◌, if◌then◌else◌, append-nil,
}
use network_ydxlib.Threads.{Thread, create, start, join, destroy}

-- Calls in the order that pthreads asks for, which neither `start` nor `join` sees to: each start comes
-- first or after the join of the one before it, and each join after a start. The second index says whether
-- the last start waits for its join.
pub data Life : Thread → Bool → Type 0 where
  created : (print : ℕ → List ℕ) (num : ℕ) (name : List ℕ) → Life (create print num name).0 false
  starts : {t u : Thread} (id : ℕ) → Life t false → start (some id) t ≡ some u → Life u true
  joins : {t : Thread} → Life t true → Life (join t) false

-- Before the destructor: what was made and joined, and nothing detached.
record IsHeld (t : Thread) (waits : Bool) : Type 0 where
  none_detached : t.detaches ≡ []
  made : t.runs ≡ (if waits then t.pthread_id ∷ t.joins else t.joins)
  none_joined : t.joined ≡ false → t.joins ≡ []
  all_joined : waits ≡ false → t.started ≡ t.joined
  running : waits ≡ true → t.started ≡ true

Life-IsHeld : {t : Thread} {waits : Bool} → Life t waits → IsHeld t waits
unfolding create start join
Life-IsHeld (created print num name) = record {
  none_detached = refl;
  made = refl;
  none_joined = λ e. refl;
  all_joined = λ e. refl;
  running = λ e. absurd (cc e);
}
Life-IsHeld (starts {t} id l e) =
    let h = Life-IsHeld l in
    subst (λ u. IsHeld u true) (some-inj e)
      (record {
        none_detached = h.none_detached;
        made = ap (λ x. id ∷ x) h.made;
        none_joined = h.none_joined;
        all_joined = λ e. absurd (cc e);
        running = λ e. refl;
      })
Life-IsHeld (joins {t} l) =
    let h = Life-IsHeld l in
    record {
      none_detached = h.none_detached;
      made = h.made;
      none_joined = λ e. absurd (cc e);
      all_joined = λ e. h.running refl;
      running = λ e. absurd (cc e);
    }

destroy-by :
    (s j : Bool) (t : Thread)
    → t.started ≡ s
    → t.joined ≡ j
    → destroy t ≡ (if s && not j then record t { detaches = t.pthread_id ∷ t.detaches } else t)
unfolding destroy
destroy-by s j t e f =
    ap₂ (λ a b. if a && not b then record t { detaches = t.pthread_id ∷ t.detaches } else t) e f

abbrev Released : Thread → Type 0
Released t = t.joins ++ t.detaches ≡ t.runs

over : (t : Thread) → t.joined ≡ false → IsHeld t true → Released (destroy t)
over t never h = subst Released (sym (destroy-by true false t (h.running refl) never)) (
    ap₂ (λ x y. x ++ (t.pthread_id ∷ y)) (h.none_joined never) h.none_detached
    ∙ ap (λ x. t.pthread_id ∷ x) (sym (h.none_joined never))
    ∙ sym h.made)

joined_all : (t : Thread) (j : Bool) → t.joined ≡ j → IsHeld t false → Released (destroy t)
joined_all t true e h =
    subst Released (sym (destroy-by true true t (h.all_joined refl ∙ e) e))
      (ap (λ x. t.joins ++ x) h.none_detached ∙ append-nil t.joins ∙ sym h.made)
joined_all t false e h =
    subst Released (sym (destroy-by false false t (h.all_joined refl ∙ e) e))
      (ap (λ x. t.joins ++ x) h.none_detached ∙ append-nil t.joins ∙ sym h.made)

-- Let `start`, whose pthread_create succeeds, and `join` be called on a thread in turn, the start first,
-- any number of times, and let no call of `join` have been made if the last start still waits for one.
-- Then the handles that pthread_create has made are, after the destructor, those that were joined or
-- detached, each of them once.
pub destroy-released :
    {t : Thread} {waits : Bool}
    → Life t waits
    → (waits ≡ true → t.joined ≡ false)
    → (destroy t).joins ++ (destroy t).detaches ≡ (destroy t).runs
destroy-released {t} {waits = true} l h = over t (h refl) (Life-IsHeld l)
destroy-released {t} {waits = false} l h = joined_all t t.joined refl (Life-IsHeld l)

-- `joined_` is never reset: a thread that is started again after a join, and not joined again, keeps the
-- handle of its last start, which the destructor does not detach.
pub destroy-restarted :
    {t : Thread}
    → Life t true
    → t.joined ≡ true
    → (destroy t).runs ≡ t.pthread_id ∷ ((destroy t).joins ++ (destroy t).detaches)
destroy-restarted {t} l j =
    let h = Life-IsHeld l in
    subst (λ u. u.runs ≡ t.pthread_id ∷ (u.joins ++ u.detaches))
      (sym (destroy-by true true t (h.running refl) j))
      (h.made
        ∙ ap (λ x. t.pthread_id ∷ x)
            (sym (append-nil t.joins) ∙ ap (λ x. t.joins ++ x) (sym h.none_detached)))
