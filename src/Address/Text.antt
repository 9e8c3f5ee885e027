-- ===== src/Address/Text.antt =====
-- InetAddress: its text and its port.
use network_ydxlib.Base.{
  ℕ, ◌-◌, ◌^◌, ◌≤◌, ◌<◌, ◌≡◌, refl, ap, ◌∙◌, Bool, none, some, List, ◌∷◌, ◌++◌, arith, length, take,
  length-append, lt→ltb, if◌then◌else◌,
}
use network_ydxlib.Base.Slices.{take_all}
use network_ydxlib.Address.{
  Libc, IsLibc, SockaddrIn, colon, pton, from_ip_port, of_ip_port, to_port, with_port, write_ip,
  write_ip_port, to_ip, to_ip_port,
}

-- The text of an address whose port, on this host, is `port`.
with_port-whole :
    (c : Libc) (addr : SockaddrIn) (ip : List ℕ)
    → IsLibc c
    → length ip ≤ 15
    → to_port c addr < 2 ^ 16
    → with_port c 32 addr (some ip) ≡ some (ip ++ (colon ∷ c.print (to_port c addr)))
unfolding with_port
with_port-whole c addr ip l short port =
    let p = l.print_short (to_port c addr) port in
    ap
      (λ (b : Bool).
        if b
        then some (ip ++ take (32 - length ip - 1) (colon ∷ c.print (to_port c addr)))
        else none)
      (lt→ltb (length ip) 32 (omega (arith, short)))
    ∙ ap (λ x. some (ip ++ x))
        (take_all (colon ∷ c.print (to_port c addr)) (32 - length ip - 1) (omega (arith, p, short)))

-- The text of any address whose port is one of 16 bits is the text of its number, a colon and the
-- port's digits, of 21 bytes at most: no assertion fails, and nothing is cut off.
pub length-to_ip_port :
    (c : Libc) (addr : SockaddrIn)
    → IsLibc c
    → to_port c addr < 2 ^ 16
    → (to_ip_port c addr ≡ some (c.inet_ntop addr.s_addr ++ (colon ∷ c.print (to_port c addr))))
      × (length (c.inet_ntop addr.s_addr ++ (colon ∷ c.print (to_port c addr))) ≤ 21)
unfolding to_ip_port write_ip_port write_ip
length-to_ip_port c addr l port = (
  with_port-whole c addr (c.inet_ntop addr.s_addr) l (l.ntop_short addr.s_addr) port,
  omega (
    arith,
    l.ntop_short addr.s_addr,
    l.print_short (to_port c addr) port,
    length-append (c.inet_ntop addr.s_addr) (colon ∷ c.print (to_port c addr)),
  ),
)

pton-of :
    (c : Libc) (ip : List ℕ) (port a : ℕ)
    → c.inet_pton ip ≡ some a
    → of_ip_port c ip port ≡ record { sin_family = 2; sin_port = c.htobe16 port; s_addr = a }
unfolding of_ip_port from_ip_port pton
pton-of c ip port a e = rw e refl

-- For a port of 16 bits, and a dotted text that `inet_pton` reads as a number whose text it is: the
-- address that is made of the two gives back the port, the text, and the text, a colon and the
-- port's digits.
pub to_ip_port-of_ip_port :
    (c : Libc) (ip : List ℕ) (port a : ℕ)
    → IsLibc c
    → port < 2 ^ 16
    → c.inet_pton ip ≡ some a
    → c.inet_ntop a ≡ ip
    → let addr = of_ip_port c ip port in
      (to_port c addr ≡ port)
      × (to_ip c addr ≡ some ip)
      × (to_ip_port c addr ≡ some (ip ++ (colon ∷ c.print port)))
unfolding to_port to_ip write_ip
to_ip_port-of_ip_port c ip port a l small e f =
    let addr : SockaddrIn = record { sin_family = 2; sin_port = c.htobe16 port; s_addr = a } in
    let same : of_ip_port c ip port ≡ addr = pton-of c ip port a e in
    let back : to_port c addr ≡ port = l.swapped port small in
    let (text, _) = length-to_ip_port c addr l (omega (arith, back, small)) in
    rw same (
      back,
      ap some f,
      text
          ∙ ap some (
              ap (λ x. x ++ (colon ∷ c.print (to_port c addr))) f
              ∙ ap (λ x. ip ++ (colon ∷ c.print x)) back),
    )
