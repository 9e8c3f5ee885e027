-- ===== src/Client/Pairs.antt =====
-- TcpClient: each connection is established and destroyed once, and the connector is restarted for
-- each that goes.
use network_ydxlib.Base.{
  ℕ, ◌+◌, ◌<◌, ◌≤◌, ◌≡◌, refl, ap, Bool, true, false, Option, none, some, List, [], ◌∷◌, ◌==◌,
  if◌then◌else◌, arith, inl, inr, Bool-cases, ==_iff,
}
use network_ydxlib.Client.{
  Call, starts, stops, restarts, establishes, destroys, shuts, Client, new_client, enable_retry,
  is_connected, connect, stop, shut, disconnect, new_connection, remove_connection,
}

-- The client's life; a connection comes only when there is none, and only the current one goes.
pub data Reach : Client → Type 0 where
  created : Reach new_client
  retries : (c : Client) → Reach c → Reach (enable_retry c)
  connects : (c : Client) → Reach c → Reach (connect c)
  is_stopped : (c : Client) → Reach c → Reach (stop c)
  disconnects : (c : Client) → Reach c → Reach (disconnect c)
  comes : (c : Client) → Reach c → c.connection ≡ none → Reach (new_connection c)
  goes : (n : ℕ) (c : Client) → Reach c → c.connection ≡ some n → Reach (remove_connection n c)

abbrev pub one_made : ℕ → Call → ℕ
one_made n (establishes k) = if n == k then 1 else 0
one_made n (destroys k) = 0
one_made n (shuts k) = 0
one_made n starts = 0
one_made n stops = 0
one_made n restarts = 0

abbrev pub one_gone : ℕ → Call → ℕ
one_gone n (establishes k) = 0
one_gone n (destroys k) = if n == k then 1 else 0
one_gone n (shuts k) = 0
one_gone n starts = 0
one_gone n stops = 0
one_gone n restarts = 0

abbrev pub made : ℕ → List Call → ℕ
made n [] = 0
made n (x ∷ xs) = one_made n x + made n xs

abbrev pub gone : ℕ → List Call → ℕ
gone n [] = 0
gone n (x ∷ xs) = one_gone n x + gone n xs

abbrev pub is_current : ℕ → Option ℕ → ℕ
is_current n none = 0
is_current n (some k) = if n == k then 1 else 0

abbrev pub any : Option ℕ → ℕ
any none = 0
any (some k) = 1

pub record IsPaired (c : Client) : Type 0 where
  pub paired : (n : ℕ) → made n c.calls ≡ gone n c.calls + is_current n c.connection
  pub once : (n : ℕ) → made n c.calls ≤ 1
  pub unused : (n : ℕ) → c.next_conn_id ≤ n → made n c.calls ≡ 0
  pub first : 1 ≤ c.next_conn_id
  pub is_up : is_connected c ≡ true → 1 < c.next_conn_id → any c.connection ≡ 1

shut-IsPaired :
    (o : Option ℕ) (c : Client)
    → c.connection ≡ o
    → IsPaired c
    → IsPaired (shut o (record c { wanted = false }))
unfolding shut is_connected
shut-IsPaired none c e h = record {
  paired = h.paired;
  once = h.once;
  unused = h.unused;
  first = h.first;
  is_up = λ u. absurd (cc u);
}
shut-IsPaired (some k) c e h = record {
  paired = λ n. omega (arith, h.paired n);
  once = λ n. omega (arith, h.once n);
  unused = λ n l. omega (arith, h.unused n l);
  first = h.first;
  is_up = λ u. absurd (cc u);
}

comes-IsPaired : (c : Client) → c.connection ≡ none → IsPaired c → IsPaired (new_connection c)
unfolding new_connection is_connected
comes-IsPaired c e h = record {
  paired = λ n. omega (arith, h.paired n, ap (is_current n) e);
  once = λ n. first_time n (n == c.next_conn_id) refl;
  unused = λ n l. ground (arith, l, h.unused n (omega (arith, l)));
  first = omega (arith, h.first);
  is_up = λ u more. refl;
}
  where
    first_time :
        (n : ℕ) (b : Bool)
        → (n == c.next_conn_id) ≡ b
        → (if n == c.next_conn_id then 1 else 0) + made n c.calls ≤ 1
    first_time n true e =
        let same = (==_iff n c.next_conn_id).0 e in
        ground (arith, e, h.unused n (omega (arith, same)))
    first_time n false e = ground (arith, e, h.once n)

goes-IsPaired :
    (n : ℕ) (c : Client) → c.connection ≡ some n → IsPaired c → IsPaired (remove_connection n c)
unfolding remove_connection is_connected
goes-IsPaired n c e h = elim (Bool-cases c.retry) [
  | inl r ↦ rw r (record {
    paired = λ k. omega (arith, h.paired k, ap (is_current k) e);
    once = λ k. omega (arith, h.once k);
    unused = λ k l. omega (arith, h.unused k l);
    first = h.first;
    is_up = λ u. absurd (cc u);
  })
  | inr r ↦ rw r (record {
    paired = λ k. omega (arith, h.paired k, ap (is_current k) e);
    once = λ k. omega (arith, h.once k);
    unused = λ k l. omega (arith, h.unused k l);
    first = h.first;
    is_up = λ u. absurd (cc u);
  })
]

-- A call that is about no connection.
called-IsPaired :
    (x : Call) (c : Client)
    → ((n : ℕ) → one_made n x ≡ 0)
    → ((n : ℕ) → one_gone n x ≡ 0)
    → IsPaired c
    → IsPaired (record c { calls = x ∷ c.calls })
unfolding is_connected
called-IsPaired x c e f h = record {
  paired = λ n. omega (arith, h.paired n, e n, f n);
  once = λ n. omega (arith, h.once n, e n);
  unused = λ n l. omega (arith, h.unused n l, e n);
  first = h.first;
  is_up = h.is_up;
}

unwanted-IsPaired : (c : Client) → IsPaired c → IsPaired (record c { wanted = false })
unfolding is_connected
unwanted-IsPaired c h = record {
  paired = h.paired;
  once = h.once;
  unused = h.unused;
  first = h.first;
  is_up = λ u. absurd (cc u);
}

retries-IsPaired : (c : Client) → IsPaired c → IsPaired (enable_retry c)
unfolding enable_retry is_connected
retries-IsPaired c h = record {
  paired = h.paired;
  once = h.once;
  unused = h.unused;
  first = h.first;
  is_up = h.is_up;
}

-- Over the life of a client whose connector brings a connection only when there is none, each
-- connection is established once, and destroyed once unless it is the current one. Once a connection
-- has been made, `is_connected` answers that there is one only if there is.
pub Reach-IsPaired : (c : Client) → Reach c → IsPaired c
unfolding connect stop disconnect
Reach-IsPaired _ created = record {
  paired = λ n. omega arith;
  once = λ n. omega arith;
  unused = λ n l. refl;
  first = omega arith;
  is_up = λ u more. absurd (omega (arith, more));
}
Reach-IsPaired _ (retries c r) = retries-IsPaired c (Reach-IsPaired c r)
Reach-IsPaired _ (connects c r) =
    called-IsPaired starts c (λ n. refl) (λ n. refl) (Reach-IsPaired c r)
Reach-IsPaired _ (is_stopped c r) =
    called-IsPaired stops (record c { wanted = false }) (λ n. refl) (λ n. refl)
      (unwanted-IsPaired c (Reach-IsPaired c r))
Reach-IsPaired _ (disconnects c r) = shut-IsPaired c.connection c refl (Reach-IsPaired c r)
Reach-IsPaired _ (comes c r e) = comes-IsPaired c e (Reach-IsPaired c r)
Reach-IsPaired _ (goes n c r e) = goes-IsPaired n c e (Reach-IsPaired c r)
