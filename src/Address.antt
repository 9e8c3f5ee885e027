-- ===== src/Address.antt =====
-- class InetAddress of inet_address.h and inet_address.cpp, and the functions of socket_ops.cpp and
-- ydx_endian.h on addresses. The C library's functions are an interface. Strings are lists of bytes.
pub mod Text
mod Tests
use network_ydxlib.Base.{
  ℕ, ◌+◌, ◌-◌, ◌^◌, ◌≤◌, ◌<◌, ◌≡◌, Bool, true, false, ◌&&◌, Option, none, some, List, ◌∷◌, ◌++◌,
  leb, ltb, ◌==◌, if◌then◌else◌, length, take, drop,
}

-- What <endian.h>, inet_ntop, inet_pton and the "%u" of snprintf give.
pub record Libc : Type 0 where
  pub htobe16 : ℕ → ℕ
  pub be16toh : ℕ → ℕ
  pub htobe32 : ℕ → ℕ
  pub inet_ntop : ℕ → List ℕ
  pub inet_pton : List ℕ → Option ℕ
  pub print : ℕ → List ℕ

-- What their documentation says: a port is had back from network order; the text of an address with
-- its final 0 fits INET_ADDRSTRLEN bytes; a number of 16 bits has five digits at most.
pub record IsLibc (c : Libc) : Type 0 where
  pub swapped : (port : ℕ) → port < 2 ^ 16 → c.be16toh (c.htobe16 port) ≡ port
  pub ntop_short : (a : ℕ) → length (c.inet_ntop a) ≤ 15
  pub print_short : (n : ℕ) → n < 2 ^ 16 → length (c.print n) ≤ 5

abbrev pub af_inet : ℕ
af_inet = 2

-- INADDR_ANY and INADDR_LOOPBACK.
abbrev pub inaddr_any : ℕ
inaddr_any = 0

abbrev pub inaddr_loopback : ℕ
inaddr_loopback = 2130706433

abbrev pub inet_addrstrlen : ℕ
inet_addrstrlen = 16

abbrev pub colon : ℕ
colon = 58

-- `struct sockaddr_in`: the port and the address are in network byte order.
pub record SockaddrIn : Type 0 where
  pub sin_family : ℕ
  pub sin_port : ℕ
  pub s_addr : ℕ

abbrev pub zeroed : SockaddrIn
zeroed = record { sin_family = 0; sin_port = 0; s_addr = 0 }

-- What a failing `getsockname` or `getpeername` leaves.
unfoldable pub get_addr : Option SockaddrIn → SockaddrIn
get_addr none = zeroed
get_addr (some a) = a

-- The outcomes of `getsockname` and `getpeername`.
unfoldable pub is_self_connect : (local peer : Option SockaddrIn) → Bool
unfolding get_addr
is_self_connect local peer =
    let l = get_addr local in
    let p = get_addr peer in (l.sin_port == p.sin_port) && (l.s_addr == p.s_addr)

-- `Socket::accept`: the peer's address is stored where a connection was accepted.
unfoldable pub accepted : (ok : Bool) → SockaddrIn → SockaddrIn → SockaddrIn
accepted ok addr peeraddr = if ok then addr else peeraddr

module _ (c : Libc) where
  unfoldable pub of_port : (port : ℕ) (loopback_only : Bool) → SockaddrIn
  of_port port loopback_only = record {
    sin_family = af_inet;
    sin_port = c.htobe16 port;
    s_addr = c.htobe32 (if loopback_only then inaddr_loopback else inaddr_any);
  }

  -- Where `inet_pton` fails the address stays as it is.
  unfoldable pub pton : List ℕ → SockaddrIn → Option ℕ → SockaddrIn
  pton ip addr none = addr
  pton ip addr (some a) = record addr { s_addr = a }

  unfoldable pub from_ip_port : List ℕ → (port : ℕ) → SockaddrIn → SockaddrIn
  unfolding pton
  from_ip_port ip port addr =
      pton ip (record addr { sin_family = af_inet; sin_port = c.htobe16 port }) (c.inet_pton ip)

  unfoldable pub of_ip_port : List ℕ → (port : ℕ) → SockaddrIn
  unfolding from_ip_port
  of_ip_port ip port = from_ip_port ip port zeroed

  unfoldable pub to_port : SockaddrIn → ℕ
  to_port addr = c.be16toh addr.sin_port

  -- `none` is a failed assertion on the array's size. What `inet_ntop` writes is a string that fits.
  unfoldable pub write_ip : (size : ℕ) → SockaddrIn → Option (List ℕ)
  write_ip size addr = if leb inet_addrstrlen size then some (c.inet_ntop addr.s_addr) else none

  -- `snprintf` behind the text of the address.
  unfoldable pub with_port : (size : ℕ) → SockaddrIn → Option (List ℕ) → Option (List ℕ)
  unfolding to_port
  with_port size addr none = none
  with_port size addr (some ip) =
      if ltb (length ip) size
      then some (ip ++ take (size - length ip - 1) (colon ∷ c.print (to_port addr)))
      else none

  unfoldable pub write_ip_port : (size : ℕ) → SockaddrIn → Option (List ℕ)
  unfolding write_ip with_port
  write_ip_port size addr = with_port size addr (write_ip size addr)

  unfoldable pub to_ip : SockaddrIn → Option (List ℕ)
  unfolding write_ip
  to_ip addr = write_ip 32 addr

  unfoldable pub to_ip_port : SockaddrIn → Option (List ℕ)
  unfolding write_ip_port
  to_ip_port addr = write_ip_port 32 addr

-- What `gethostbyname_r` finds, if it finds a host.
unfoldable pub resolve : Option ℕ → SockaddrIn → Bool × SockaddrIn
resolve none out = (false, out)
resolve (some a) out = (true, record out { s_addr = a })
