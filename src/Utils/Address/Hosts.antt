-- ===== src/Utils/Address/Hosts.antt =====
-- `InetAddress::fromHost` of lib/src/dns.cc in a build with c-ares.
use cppmhd.Prelude.{
  ℕ, ◌^◌, ◌<◌, ◌≡◌, refl, Bool, true, false, ◌&&◌, not, Option, none, some, List, [], ◌∷◌, ◌++◌,
  Str, if◌then◌else◌, length, ltb, All, Bool-cases, inl, inr, arith, sym, ◌∙◌,
}
use mathlib.Core.List.{append-nil, append_assoc}
use cppmhd.Utils.Address.{Family, Sockets, InetAddress, from}
use cppmhd.Utils.Address.Texts.{width, IsWritten, from-IsWritten}

-- `hostent`: its family, which is `none` when it is neither of the two, and its addresses.
pub record HostEntry : Type 0 where
  pub family : Option Family
  pub addresses : List Str

-- What c-ares answers: whether the library and a channel can be initialised, and what the callback
-- gets for a name; `none` is a null result or a status other than ARES_SUCCESS.
pub record Cares : Type 0 where
  pub library_init : Bool
  pub channel_init : Bool
  pub lookup : Str → Option HostEntry

-- The loop of `DnsQueryCallback` over the addresses of one family.
unfoldable pub add_addresses : Sockets → ℕ → Family → List Str → List InetAddress → List InetAddress
add_addresses s port f [] out = out
add_addresses s port f (b ∷ bs) out = add_addresses s port f bs (out ++ from s f b port ∷ [])

-- `DnsQueryCallback`
unfoldable pub dns_query_callback :
    Sockets → ℕ → Option HostEntry → List InetAddress → List InetAddress
unfolding add_addresses
dns_query_callback s port none out = out
dns_query_callback s port (some h) out = elim h.family [
  | none ↦ out
  | some f ↦ add_addresses s port f h.addresses out
]

-- What `fromHost` returns, and what it leaves in `out` and in `inited`.
pub record Resolved : Type 0 where
  pub result : Bool
  pub out : List InetAddress
  pub inited : Bool

-- `fromHost(out, in, port)`
unfoldable pub from_host : Sockets → Cares → Bool → List InetAddress → Str → ℕ → Resolved
unfolding dns_query_callback
from_host s cares inited out name port =
    if not inited && not cares.library_init
    then record { result = false; out = out; inited = inited }
    else if not cares.channel_init
    then record { result = false; out = out; inited = true }
    else let found = dns_query_callback s port (cares.lookup name) out in
      record { result = ltb 0 (length found); out = found; inited = true }

-- The addresses of an entry are as long as its family says.
unfoldable pub IsSized : Option HostEntry → Type 0
IsSized none = Unit
IsSized (some h) = elim h.family [
  | none ↦ Unit
  | some f ↦ All (λ b. length b ≡ width f) h.addresses
]

-- The addresses that a call adds: each is written in full and has the port.
abbrev pub Added : Sockets → ℕ → List InetAddress → List InetAddress → Type 0
Added s port out out' =
    (new : List InetAddress) × (out' ≡ out ++ new) × All (λ a. IsWritten s a × (a.port ≡ port)) new

add_addresses-Added :
    (s : Sockets) (port : ℕ) (f : Family) (bs : List Str) (out : List InetAddress)
    → port < 2 ^ 16
    → All (λ b. length b ≡ width f) bs
    → Added s port out (add_addresses s port f bs out)
unfolding add_addresses from
add_addresses-Added s port f [] out lt v = ([], sym (append-nil out), tt)
add_addresses-Added s port f (b ∷ bs) out lt (h, v) =
    let a = from s f b port in
    let (new, e, w) = add_addresses-Added s port f bs (out ++ a ∷ []) lt v in
    (a ∷ new, e ∙ append_assoc out (a ∷ []) new, ((from-IsWritten s f b port h lt, refl), w))

callback-Added :
    (s : Sockets) (port : ℕ) (h : Option HostEntry) (out : List InetAddress)
    → port < 2 ^ 16
    → IsSized h
    → Added s port out (dns_query_callback s port h out)
unfolding dns_query_callback IsSized
callback-Added s port none out lt v = ([], sym (append-nil out), tt)
callback-Added s port (some h) out lt v = go h.family v
  where
    go :
        (o : Option Family)
        → IsSized (some (record { family = o; addresses = h.addresses }))
        → Added s port out
            (dns_query_callback s port (some (record { family = o; addresses = h.addresses })) out)
    go none w = ([], sym (append-nil out), tt)
    go (some f) w = add_addresses-Added s port f h.addresses out lt w

-- Looking a host up keeps the addresses that were in the vector, and adds only addresses that are
-- written in full and have the given port; when it returns true, the vector is not empty, and when it
-- has found a new address it returns true.
pub from_host-Added :
    (s : Sockets) (cares : Cares) (inited : Bool) (out : List InetAddress) (name : Str) (port : ℕ)
    → port < 2 ^ 16
    → IsSized (cares.lookup name)
    → let r = from_host s cares inited out name port in
      Added s port out r.out
      × (r.result ≡ true → 0 < length r.out)
      × (length out < length r.out → r.result ≡ true)
unfolding from_host
from_host-Added s cares inited out name port lt v =
    let found = dns_query_callback s port (cares.lookup name) out in
    elim (Bool-cases (not inited && not cares.library_init)) [
      | inl e ↦
          rw (from_host, e)
            (([], sym (append-nil out), tt), λ f. cc, λ f. absurd (omega (arith, f)))
      | inr e ↦ elim (Bool-cases (not cares.channel_init)) [
        | inl g ↦
            rw (from_host, e, g)
              (([], sym (append-nil out), tt), λ f. cc, λ f. absurd (omega (arith, f)))
        | inr g ↦
            rw (from_host, e, g)
              (
                callback-Added s port (cares.lookup name) out lt v,
                λ f. ground (arith, f),
                λ f. ground (arith, f),
              )
      ]
    ]
