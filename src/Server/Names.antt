-- ===== src/Server/Names.antt =====
-- TcpServer: two connections have different names while a name's end fits its 32 bytes.
use network_ydxlib.Base.{
  ℕ, ◌+◌, ◌≤◌, ◌<◌, ◌≡◌, sym, ◌∙◌, List, [], ◌∷◌, ◌++◌, arith, length, length-append,
}
use network_ydxlib.Base.Slices.{take_all}
use network_ydxlib.Server.{suffix, colon, hash}

tail-eq : {x : ℕ} → {xs ys : List ℕ} → x ∷ xs ≡ x ∷ ys → xs ≡ ys
tail-eq e = cc

append-cancel : (xs : List ℕ) {ys zs : List ℕ} → xs ++ ys ≡ xs ++ zs → ys ≡ zs
append-cancel [] e = e
append-cancel (x ∷ xs) e = append-cancel xs (tail-eq e)

-- What `connName` is of the connection number `id`.
abbrev pub conn_name : (ℕ → List ℕ) → (hostport name : List ℕ) → ℕ → List ℕ
conn_name print hostport name id = name ++ suffix print hostport id

-- The prints of the numbers below `limit` differ, and fit the 29 bytes that ':', '#' and the final
-- 0 leave with `hostport`.
pub record IsPrint (print : ℕ → List ℕ) (hostport : List ℕ) (limit : ℕ) : Type 0 where
  pub differs : (i j : ℕ) → i < limit → j < limit → print i ≡ print j → i ≡ j
  pub fits : (i : ℕ) → i < limit → length hostport + length (print i) ≤ 29

whole :
    (print : ℕ → List ℕ) (hostport : List ℕ) (i : ℕ)
    → length hostport + length (print i) ≤ 29
    → suffix print hostport i ≡ colon ∷ (hostport ++ (hash ∷ print i))
whole print hostport i h =
    take_all (colon ∷ (hostport ++ (hash ∷ print i))) 31
      (omega (arith, h, length-append hostport (hash ∷ print i)))

pub conn_name-differs :
    (print : ℕ → List ℕ) (hostport name : List ℕ) (limit i j : ℕ)
    → IsPrint print hostport limit
    → i < limit
    → j < limit
    → conn_name print hostport name i ≡ conn_name print hostport name j
    → i ≡ j
conn_name-differs print hostport name limit i j p hi hj e = p.differs i j hi hj (
    tail-eq (
      append-cancel hostport (
        tail-eq (
          sym (whole print hostport i (p.fits i hi))
          ∙ append-cancel name e
          ∙ whole print hostport j (p.fits j hj)))))
