-- ===== src/Launch/Open.antt =====
-- CountDownLauch: nobody is let through early, and nobody is left waiting.
use network_ydxlib.Base.{
  ℕ, ◌<◌, ◌≤◌, ◌≡◌, refl, true, false, List, [], ◌∷◌, arith, inl, inr, Bool-cases, length,
}
use network_ydxlib.Base.Int.{ℤ, pos, negsuc, ltb_ℤ, sub_ℤ, pos_part}
use network_ydxlib.Launch.{
  CountDownLauch, launch, is_zero, notify_all, count_down, wait, without, go_on, wake,
}

-- Calls of `countDown` and `wait`, and threads that wake, in any order.
pub data Reach : CountDownLauch → Type 0 where
  created : (count : ℤ) → Reach (launch count)
  counts : (l : CountDownLauch) → Reach l → Reach (count_down l)
  waits : (t : ℕ) (l : CountDownLauch) → Reach l → Reach (wait t l)
  goes : (t : ℕ) (l : CountDownLauch) → Reach l → Reach (go_on t l)
  wakes : (t : ℕ) (l : CountDownLauch) → Reach l → Reach (wake t l)

-- Whether threads wait, or are through, goes by whether the count is positive.
pub record IsOpen (l : CountDownLauch) : Type 0 where
  pub closed : 0 < pos_part l.count → length l.through ≡ 0
  pub opened : pos_part l.count ≡ 0 → length l.waiting ≡ 0

positive : (z : ℤ) → ltb_ℤ (pos 0) z ≡ true → 0 < pos_part z
positive (pos n) e = ground (arith, e)
positive (negsuc n) e = absurd (ground (arith, e))

not-positive : (z : ℤ) → ltb_ℤ (pos 0) z ≡ false → pos_part z ≡ 0
not-positive (pos n) e = ground (arith, e)
not-positive (negsuc n) e = refl

-- Counting down from a positive count, or another.
lower : (z : ℤ) → pos_part (sub_ℤ z (pos 1)) ≤ pos_part z
lower (pos n) = ground arith
lower (negsuc n) = ground arith

first_zero :
    (z : ℤ) → is_zero (sub_ℤ z (pos 1)) ≡ false → pos_part (sub_ℤ z (pos 1)) ≡ 0 → pos_part z ≡ 0
first_zero (pos n) e h = ground (arith, e, h)
first_zero (negsuc n) e h = refl

zero_part : (z : ℤ) → is_zero z ≡ true → pos_part z ≡ 0
zero_part (pos n) e = ground (arith, e)
zero_part (negsuc n) e = refl

wait-IsOpen : (t : ℕ) (l : CountDownLauch) → IsOpen l → IsOpen (wait t l)
unfolding wait
wait-IsOpen t l h = elim (Bool-cases (ltb_ℤ (pos 0) l.count)) [
  | inl e ↦
      rw e
        (record { closed = h.closed; opened = λ z. absurd (omega (arith, z, positive l.count e)) })
  | inr e ↦ rw e (record {
    closed = λ p. absurd (omega (arith, p, not-positive l.count e));
    opened = h.opened;
  })
]

count_down-IsOpen : (l : CountDownLauch) → IsOpen l → IsOpen (count_down l)
unfolding count_down notify_all
count_down-IsOpen l h = elim (Bool-cases (is_zero (sub_ℤ l.count (pos 1)))) [
  | inl e ↦ rw e (record {
    closed = λ p. absurd (omega (arith, p, zero_part (sub_ℤ l.count (pos 1)) e));
    opened = λ z. refl;
  })
  | inr e ↦ rw e (record {
    closed = λ p. h.closed (omega (arith, p, lower l.count));
    opened = λ z. h.opened (first_zero l.count e z);
  })
]

length-without : (t : ℕ) (xs : List ℕ) → length (without t xs) ≤ length xs
length-without t [] = omega arith
length-without t (x ∷ xs) = ground (arith, length-without t xs)

-- Whatever calls of `countDown` and `wait` there are, on any count, and whenever threads wake: while
-- the count is positive no thread has come through `wait`, and as soon as it is not, no thread is
-- still asleep in it.
pub Reach-IsOpen : (l : CountDownLauch) → Reach l → IsOpen l
unfolding go_on wake
Reach-IsOpen _ (created count) = record { closed = λ p. refl; opened = λ z. refl }
Reach-IsOpen _ (counts l r) = count_down-IsOpen l (Reach-IsOpen l r)
Reach-IsOpen _ (waits t l r) = wait-IsOpen t l (Reach-IsOpen l r)
Reach-IsOpen _ (goes t l r) =
    let h = Reach-IsOpen l r in
    wait-IsOpen t (record l { woken = without t l.woken })
      (record { closed = h.closed; opened = h.opened })
Reach-IsOpen _ (wakes t l r) =
    let h = Reach-IsOpen l r in
    record {
      closed = h.closed;
      opened =
          λ z. let none_left = h.opened z in omega (arith, none_left, length-without t l.waiting);
    }
