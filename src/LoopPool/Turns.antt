-- ===== src/LoopPool/Turns.antt =====
-- EPollerThreadPool: the loops are handed out in turn, and only they are.
use network_ydxlib.Base.{
  ℕ, zero, suc, ◌+◌, ◌-◌, ◌%◌, ◌<◌, ◌≡◌, refl, sym, ap, ◌∙◌, true, false, Option, some, List, [],
  ◌∷◌, map, leb, if◌then◌else◌, drop, length, get_elem?, arith,
}
use native.Mathlib.Omega.{mod_fact}
use network_ydxlib.Base.Slices.{drop_all}
use network_ydxlib.LoopPool.{
  LoopPool, get_next_loop, next_of, get_loop_for_hash, hash_of, get_all_loops, all_of,
}

-- The loops that a number of calls in a row give.
abbrev pub serve : ℕ → LoopPool → List (Option ℕ) × LoopPool
serve zero p = ([], p)
serve (suc k) p = let (l, p') = get_next_loop p in let (ls, q) = serve k p' in (l ∷ ls, q)

drop-get_elem? :
    (xs : List ℕ) (i : ℕ)
    → i < length xs
    → (x : ℕ) × (get_elem? xs i ≡ some x) × (drop i xs ≡ x ∷ drop (suc i) xs)
drop-get_elem? [] i h = absurd (omega (arith, h))
drop-get_elem? (x ∷ xs) zero h = (x, refl, refl)
drop-get_elem? (x ∷ xs) (suc i) h = drop-get_elem? xs i (omega arith)

next_of-inside :
    (es : List ℕ) (p : LoopPool)
    → p.next < length es
    → next_of es p ≡ (
      get_elem? es p.next,
      record p { next = if leb (length es) (p.next + 1) then 0 else p.next + 1 },
    )
unfolding next_of
next_of-inside [] p h = absurd (omega (arith, h))
next_of-inside (e ∷ es) p h = refl

serve-turn :
    (j : ℕ) (p : LoopPool)
    → p.next + suc j ≡ length p.epolls
    → ((serve (suc j) p).0 ≡ map some (drop p.next p.epolls))
      × ((serve (suc j) p).1 ≡ record p { next = 0 })
unfolding get_next_loop
serve-turn zero p h =
    let (x, e, d) = drop-get_elem? p.epolls p.next (omega (arith, h)) in
    let over : leb (length p.epolls) (p.next + 1) ≡ true = ground (arith, h) in
    let last : drop (suc p.next) p.epolls ≡ [] =
      drop_all p.epolls (suc p.next) (omega (arith, h)) in
    rw (next_of-inside p.epolls p (omega (arith, h)), over, e, d, last) (refl, refl)
serve-turn (suc j) p h =
    let (x, e, d) = drop-get_elem? p.epolls p.next (omega (arith, h)) in
    let inside : leb (length p.epolls) (p.next + 1) ≡ false = ground (arith, h) in
    let up : p.next + 1 ≡ suc p.next = omega arith in
    let (ls, q) = serve-turn j (record p { next = suc p.next }) (omega (arith, h)) in
    rw (next_of-inside p.epolls p (omega (arith, h)), inside, e, d, up) (ap (λ l. some x ∷ l) ls, q)

-- From the first loop on, as many calls of `getNextLoop` as there are loops give each loop once, in
-- their order, and are back at the first loop.
pub serve-all :
    (p : LoopPool)
    → p.next ≡ 0
    → 0 < length p.epolls
    → ((serve (length p.epolls) p).0 ≡ map some p.epolls) × ((serve (length p.epolls) p).1 ≡ p)
serve-all p h g =
    let j : (k : ℕ) × (length p.epolls ≡ suc k) = (length p.epolls - 1, omega (arith, g)) in
    let (k, e) = j in
    let (ls, q) = serve-turn k p (omega (arith, h, e)) in
    rw e (ls ∙ ap (λ i. map some (drop i p.epolls)) h, q ∙ ap (λ i. record p { next = i }) (sym h))

get_elem?-inside : (xs : List ℕ) (i : ℕ) → i < length xs → (x : ℕ) × (get_elem? xs i ≡ some x)
get_elem?-inside xs i h = let (x, e, d) = drop-get_elem? xs i h in (x, e)

hash_of-all :
    (es : List ℕ) (p : LoopPool) (hash_code : ℕ)
    → (hash_of es p hash_code ≡ get_elem? (all_of es p) (hash_code % length (all_of es p)))
      × (hash_code % length (all_of es p) < length (all_of es p))
unfolding hash_of all_of
hash_of-all [] p hash_code = let z : hash_code % 1 ≡ 0 = omega arith in rw z (refl, omega arith)
hash_of-all (e ∷ es) p hash_code = (refl, mod_fact hash_code (length es))

-- The loop for a hash code is the one of `getAllLoops` at the code modulo their number, and there is
-- always one there.
pub get_loop_for_hash-all :
    (p : LoopPool) (hash_code : ℕ)
    → let loops = get_all_loops p in
      (x : ℕ) × (get_loop_for_hash p hash_code ≡ some x)
      × (get_elem? loops (hash_code % length loops) ≡ some x)
unfolding get_loop_for_hash get_all_loops
get_loop_for_hash-all p hash_code =
    let (e, h) = hash_of-all p.epolls p hash_code in
    let loops = get_all_loops p in
    let (x, at) = get_elem?-inside loops (hash_code % length loops) h in (x, e ∙ at, at)
