-- ===== src/Server/Again.antt =====
-- TcpServer: a second removal under one name, as after a connection whose name another one took.
use network_ydxlib.Base.{
  ℕ, ◌<◌, ◌≡◌, refl, sym, ap, ◌∙◌, none, some, List, [], ◌∷◌, arith, inl, inr, Bool-cases, some-inj,
  if◌then◌else◌,
}
use network_ydxlib.Server.{Conn, Server, eq_name, kept, erase, without, remove_connection_in_loop}
use network_ydxlib.Server.Keys.{held}
use network_ydxlib.Server.Names.{IsPrint}
use network_ydxlib.Server.Owner.{Reach, Reach-removed}

erase-missing : (k : List ℕ) (m : List (List ℕ × Conn)) → held k m ≡ 0 → erase k m ≡ none
erase-missing k [] h = refl
erase-missing k ((j, d) ∷ m) h = elim (Bool-cases (eq_name k j)) [
  | inl e ↦ absurd (ground (arith, e, h))
  | inr e ↦
      ap (λ b. if b then some m else kept (j, d) (erase k m)) e
      ∙ ap (kept (j, d)) (erase-missing k m (ground (arith, e, h)))
]

removed-missing :
    (d : Conn) (t : Server) → held d.name t.connections ≡ 0 → remove_connection_in_loop d t ≡ none
unfolding remove_connection_in_loop without
removed-missing d t h = ap (without d t) (erase-missing d.name t.connections h)

-- Once a connection is closed, closing a connection of the same name, itself or another, fails: the
-- search of the map ends at its end, which is then used as an entry.
pub Reach-removed_again :
    (print : ℕ → List ℕ) (hostport name : List ℕ) (limit : ℕ) (s t : Server) (c d : Conn)
    → IsPrint print hostport limit
    → Reach print hostport name limit s
    → 0 < held c.name s.connections
    → d.name ≡ c.name
    → remove_connection_in_loop c s ≡ some t
    → remove_connection_in_loop d t ≡ none
Reach-removed_again print hostport name limit s t c d p r here same e =
    let (t', done, left, gone) = Reach-removed print hostport name limit p s c r here in
    let which : t' ≡ t = some-inj (sym done ∙ e) in
    removed-missing d t
      (ap (λ k. held k t.connections) same ∙ ap (λ x. held c.name x.connections) (sym which) ∙ left)
