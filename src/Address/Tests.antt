-- ===== src/Address/Tests.antt =====
-- Addresses at a concrete C library, on a host that keeps the low byte first.
use network_ydxlib.Base.{
  ℕ, ◌+◌, ◌*◌, ◌/◌, ◌%◌, ◌^◌, ◌≤◌, ◌<◌, ◌≡◌, refl, none, some, List, [], ◌∷◌, ◌++◌, ltb,
  if◌then◌else◌, length, length-append, arith,
}
use network_ydxlib.Server.{eq_name}
use network_ydxlib.Address.{Libc, IsLibc, SockaddrIn, colon, of_ip_port, to_port, to_ip, to_ip_port}
use network_ydxlib.Address.Text.{to_ip_port-of_ip_port}

abbrev swap16 : ℕ → ℕ
swap16 n = n % 256 * 256 + n / 256

abbrev swap32 : ℕ → ℕ
swap32 n = swap16 (n % 65536) * 65536 + swap16 (n / 65536)

-- A number of at most three digits.
abbrev byte : ℕ → List ℕ
byte n =
    if ltb n 10
    then (48 + n) ∷ []
    else if ltb n 100
    then (48 + n / 10) ∷ (48 + n % 10) ∷ []
    else (48 + n / 100) ∷ (48 + n / 10 % 10) ∷ (48 + n % 10) ∷ []

abbrev dotted : ℕ → List ℕ
dotted a =
    byte (a % 256)
    ++ (46
        ∷ (byte (a / 256 % 256)
            ++ (46 ∷ (byte (a / 65536 % 256) ++ (46 ∷ byte (a / 16777216 % 256))))))

-- "1.2.3.4", and the number that it is on this host.
abbrev one_two_three_four : List ℕ
one_two_three_four = 49 ∷ 46 ∷ 50 ∷ 46 ∷ 51 ∷ 46 ∷ 52 ∷ []

abbrev its_number : ℕ
its_number = 67305985

-- A number of at most five digits.
abbrev number : ℕ → List ℕ
number n =
    if ltb n 1000
    then byte n
    else byte (n / 1000) ++ ((48 + n % 1000 / 100) ∷ (48 + n / 10 % 10) ∷ (48 + n % 10) ∷ [])

abbrev libc : Libc
libc = record {
  htobe16 = swap16;
  be16toh = swap16;
  htobe32 = swap32;
  inet_ntop = dotted;
  inet_pton = λ ip. if eq_name ip one_two_three_four then some its_number else none;
  print = number;
}

byte-short : (n : ℕ) → length (byte n) ≤ 3
byte-short n = ground arith

joined-short :
    (w x y z : List ℕ)
    → length w ≤ 3
    → length x ≤ 3
    → length y ≤ 3
    → length z ≤ 3
    → length (w ++ (46 ∷ (x ++ (46 ∷ (y ++ (46 ∷ z)))))) ≤ 15
joined-short w x y z hw hx hy hz = omega (
  arith,
  length-append w (46 ∷ (x ++ (46 ∷ (y ++ (46 ∷ z))))),
  length-append x (46 ∷ (y ++ (46 ∷ z))),
  length-append y (46 ∷ z),
)

dotted-short : (a : ℕ) → length (dotted a) ≤ 15
dotted-short a =
    joined-short (byte (a % 256)) (byte (a / 256 % 256)) (byte (a / 65536 % 256))
      (byte (a / 16777216 % 256)) (byte-short (a % 256)) (byte-short (a / 256 % 256))
      (byte-short (a / 65536 % 256)) (byte-short (a / 16777216 % 256))

byte-two : (n : ℕ) → n < 100 → length (byte n) ≤ 2
byte-two n h = ground (arith, h)

number-short : (n : ℕ) → n < 2 ^ 16 → length (number n) ≤ 5
number-short n h = ground (
  arith,
  byte-short n,
  byte-two (n / 1000) (omega (arith, h)),
  length-append (byte (n / 1000)) ((48 + n % 1000 / 100) ∷ (48 + n / 10 % 10) ∷ (48 + n % 10) ∷ []),
)

libc-IsLibc : IsLibc libc
libc-IsLibc = record {
  swapped = λ port h. omega (arith, h);
  ntop_short = dotted-short;
  print_short = number-short;
}

to_ip_port-of_ip_port_example :
    let addr = of_ip_port libc one_two_three_four 80 in
    (to_port libc addr ≡ 80)
    × (to_ip libc addr ≡ some one_two_three_four)
    × (to_ip_port libc addr ≡ some (one_two_three_four ++ (colon ∷ 56 ∷ 48 ∷ [])))
to_ip_port-of_ip_port_example =
    to_ip_port-of_ip_port libc one_two_three_four 80 its_number libc-IsLibc (omega arith) refl refl

abbrev far : SockaddrIn
far = record { sin_family = 2; sin_port = swap16 65535; s_addr = its_number }
