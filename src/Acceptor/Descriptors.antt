-- ===== src/Acceptor/Descriptors.antt =====
-- Acceptor: every descriptor that the system gives is handed on, closed, or kept as the idle one.
use network_ydxlib.Base.{
  ℕ, ◌+◌, ◌≡◌, true, Option, none, some, List, [], ◌∷◌, ◌==◌, if◌then◌else◌, arith, inl, inr,
  Bool-cases, refl, ap, ◌∙◌,
}
use network_ydxlib.Acceptor.{
  Errno, Accepted, connfd, failed, emfile, is_expected, Acceptor, ask, drop_one, no_connection,
  connection, after_accept, handle_read, accept, close,
}

abbrev pub count : ℕ → List ℕ → ℕ
count n [] = 0
count n (x ∷ xs) = (if n == x then 1 else 0) + count n xs

-- The idle descriptor is the only one that is neither closed nor handed on.
pub record IsAccounted (a : Acceptor) : Type 0 where
  pub accounted :
      (n : ℕ)
      → count n a.opened ≡ count n a.closed + count n a.handed + (if n == a.idle_fd then 1 else 0)

connection-IsAccounted : (fd : ℕ) (a : Acceptor) → IsAccounted a → IsAccounted (connection fd a)
unfolding connection
connection-IsAccounted fd a h = elim (Bool-cases a.new_connection_callback) [
  | inl e ↦ rw e (record { accounted = λ n. omega (arith, h.accounted n) })
  | inr e ↦ rw e (record { accounted = λ n. omega (arith, h.accounted n) })
]

no_connection-IsAccounted :
    (e : Errno) (taken reopened : ℕ) (a : Acceptor)
    → IsAccounted a
    → IsAccounted (no_connection e taken reopened a)
unfolding no_connection drop_one
no_connection-IsAccounted emfile taken reopened a h = record {
  accounted = λ n. omega (arith, h.accounted n);
}
no_connection-IsAccounted e taken reopened a h = h

-- Calls of `handleRead`, each with what the system gives.
abbrev pub reads : List (Accepted × ℕ × ℕ) → Option Acceptor → Option Acceptor
reads [] a = a
reads (x ∷ xs) none = none
reads ((x, taken, reopened) ∷ xs) (some a) = reads xs (handle_read x taken reopened a)

abbrev pub Survives : Accepted → Type 0
Survives (connfd fd) = Unit {0}
Survives (failed e) = is_expected e ≡ true

abbrev pub All : List (Accepted × ℕ × ℕ) → Type 0
All [] = Unit {0}
All ((x, taken, reopened) ∷ xs) = Survives x × All xs

read-IsAccounted :
    (x : Accepted) (taken reopened : ℕ) (a : Acceptor)
    → Survives x
    → IsAccounted a
    → (b : Acceptor) × (handle_read x taken reopened a ≡ some b) × IsAccounted b
unfolding handle_read after_accept accept
read-IsAccounted (connfd fd) taken reopened a sv h =
    (connection fd a, refl, connection-IsAccounted fd a h)
read-IsAccounted (failed e) taken reopened a sv h = (
  no_connection e taken reopened a,
  ap (λ b. after_accept taken reopened (if b then some (failed e) else none) a) sv,
  no_connection-IsAccounted e taken reopened a h,
)

-- As long as `accept4` gives descriptors or errors that `sockets::accept` expects, calls of
-- `handleRead` go on, and every descriptor that the system has given by then, as often as it has, has
-- been closed, or handed to the callback, or is the idle one.
pub reads-IsAccounted :
    (xs : List (Accepted × ℕ × ℕ)) (a : Acceptor)
    → All xs
    → IsAccounted a
    → (b : Acceptor) × (reads xs (some a) ≡ some b) × IsAccounted b
reads-IsAccounted [] a sv h = (a, refl, h)
reads-IsAccounted ((x, taken, reopened) ∷ xs) a (sv, more) h =
    let (b, e, hb) = read-IsAccounted x taken reopened a sv h in
    let (c, f, hc) = reads-IsAccounted xs b more hb in (c, ap (reads xs) e ∙ f, hc)

-- Once it is destroyed, too, nothing is left open but what was handed on.
pub close-count :
    (a : Acceptor) (n : ℕ)
    → IsAccounted a
    → count n (close a).opened ≡ count n (close a).closed + count n (close a).handed
unfolding close ask
close-count a n h = omega (arith, h.accounted n)
