-- ===== src/Utils/Address.antt =====
-- `InetAddress` of lib/src/utils.h and lib/src/utils.cc, its formatter and those of the socket
-- addresses in lib/src/format.h, and `InetAddress::fromHost` over c-ares in lib/src/dns.cc.
pub mod Texts
pub mod Hosts
pub mod Windows
pub mod Tests
use cppmhd.Prelude.{
  ℕ, Bool, true, false, ◌&&◌, ◌||◌, not, Option, none, some, List, [], ◌∷◌, ◌++◌, Str, codes, ◌==◌,
  decimal, if◌then◌else◌, length, ltb,
}

-- `AF_INET` and `AF_INET6`.
pub data Family : Type 0 where
  inet inet6 : Family

-- The functions of the system: `inet_pton`, with the bytes that it writes when it returns 1,
-- `inet_ntop`, `htons` and `ntohs`.
pub record Sockets : Type 0 where
  pub pton : Family → Str → Option Str
  pub ntop : Family → Str → Str
  pub htons : ℕ → ℕ
  pub ntohs : ℕ → ℕ

-- The union of `sockaddr_in` and `sockaddr_in6`: the family that it was written as, the port and the
-- bytes of the address.
pub record SockAddr : Type 0 where
  pub family : Family
  pub port : ℕ
  pub bytes : Str

pub record InetAddress : Type 0 where
  pub ipv6 : Bool
  pub port : ℕ
  pub address : SockAddr

-- `InetAddress()`, which fills it with zeros.
abbrev pub zeroed : InetAddress
zeroed = record {
  ipv6 = false;
  port = 0;
  address = record { family = Family.inet; port = 0; bytes = 0 ∷ 0 ∷ 0 ∷ 0 ∷ [] };
}

abbrev pub is_v6 : Family → Bool
is_v6 Family.inet = false
is_v6 Family.inet6 = true

-- `getSocket`; `none` is a reading of the member that was not written.
unfoldable pub get_socket : InetAddress → Option SockAddr
get_socket a = elim a.address.family [
  | Family.inet ↦ if a.ipv6 then none else some a.address
  | Family.inet6 ↦ if a.ipv6 then some a.address else none
]

-- `from(out, in, port)` for the two kinds of addresses.
unfoldable pub from : Sockets → Family → Str → ℕ → InetAddress
from s family bytes port = record {
  ipv6 = is_v6 family;
  port = port;
  address = record { family = family; port = s.htons port; bytes = bytes };
}

-- `parse(addr, in, port)`: the result, and what it leaves in `addr`.
unfoldable pub parse : Sockets → InetAddress → Str → ℕ → Bool × InetAddress
parse s addr text port = elim (s.pton Family.inet text) [
  | some bytes ↦ (
    true,
    record {
      ipv6 = false;
      port = port;
      address = record { family = Family.inet; port = s.htons port; bytes = bytes };
    },
  )
  | none ↦ elim (s.pton Family.inet6 text) [
    | some bytes ↦ (
      true,
      record {
        ipv6 = true;
        port = port;
        address = record { family = Family.inet6; port = s.htons port; bytes = bytes };
      },
    )
    | none ↦ (false, record addr { port = port })
  ]
]

-- `parse` of the formatters: the presentation that a format asks for, and the rest of the format.
unfoldable pub parse_format : Str → ℕ × Str
parse_format [] = (b'a', [])
parse_format (c ∷ rest) =
    if c == b'a' || c == b'h' || c == b'p' then (c, rest) else (b'a', c ∷ rest)

-- `format` of a socket address.
unfoldable pub format_socket : Sockets → ℕ → SockAddr → Str
format_socket s pres a =
    if pres == b'p'
    then decimal (s.ntohs a.port)
    else if pres == b'h'
    then s.ntop a.family a.bytes
    else s.ntop a.family a.bytes ++ b':' ∷ decimal (s.ntohs a.port)

-- `format` of an `InetAddress`, which hands its presentation on in a format of its own.
unfoldable pub format : Sockets → Str → InetAddress → Option Str
unfolding get_socket parse_format format_socket
format s spec a =
    let (pres, _) = parse_format spec in
    let (inner, _) = parse_format (pres ∷ []) in
    elim (get_socket a) [ none ↦ none | some sock ↦ some (format_socket s inner sock) ]
