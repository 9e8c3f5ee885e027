-- ===== src/Threads/Atomic.antt =====
-- AtomicInteger: calls from many threads, one after the other in any order.
use network_ydxlib.Base.{ℕ, ◌+◌, ◌%◌, ◌^◌, ◌≡◌, refl, ap, ◌∙◌, List, [], ◌∷◌, arith}
use network_ydxlib.Sender
use network_ydxlib.Threads.{get_and_add, add_and_get, increment_and_get, decrement_and_get}

-- The value after the calls of `getAndAdd` with these numbers.
abbrev pub after_adds : (w : ℕ) → List ℕ → ℕ → ℕ
after_adds w [] value = value
after_adds w (x ∷ xs) value = after_adds w xs (get_and_add w x value).1

abbrev pub sum : List ℕ → ℕ
sum [] = 0
sum (x ∷ xs) = x + sum xs

pub after_adds-sum :
    (xs : List ℕ) (value : ℕ) → after_adds 32 xs value % 2 ^ 32 ≡ (value + sum xs) % 2 ^ 32
unfolding get_and_add
after_adds-sum [] value = ap (λ n. n % 2 ^ 32) (omega arith)
after_adds-sum (x ∷ xs) value = after_adds-sum xs ((value + x) % 2 ^ 32) ∙ omega arith

-- The counters of Sender are such integers of 32 bits.
pub increment_lem : (n : ℕ) → (increment_and_get 32 n).1 ≡ Sender.increment n
unfolding increment_and_get add_and_get get_and_add
increment_lem n = refl

pub decrement_lem : (n : ℕ) → (decrement_and_get 32 n).1 ≡ Sender.decrement n
unfolding decrement_and_get add_and_get get_and_add
decrement_lem n = omega arith
