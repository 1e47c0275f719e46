-- ===== src/Utils/Address/Windows.antt =====
-- `InetAddress::fromHost` of lib/src/dns.cc in a build for Windows, beside the one with c-ares.
use cppmhd.Prelude.{
  ℕ, ◌≡◌, refl, Bool, true, false, not, ◌&&◌, Option, none, some, List, [], ◌∷◌, ◌++◌, Str, ap, ltb,
  length,
}
use cppmhd.Utils.Address.{inet, Sockets, InetAddress, from}
use cppmhd.Utils.Address.Hosts.{Cares, add_addresses, dns_query_callback, from_host}

-- A `DNS_RECORD`: the four bytes of its address if its type is DNS_TYPE_A, or of another type.
pub data DnsRecord : Type 0 where
  a_record : Str → DnsRecord
  other_record : DnsRecord

-- The loop over the linked records.
unfoldable pub add_records : Sockets → ℕ → List DnsRecord → List InetAddress → List InetAddress
unfolding from
add_records s port [] out = out
add_records s port (a_record ip ∷ rs) out = add_records s port rs (out ++ from s inet ip port ∷ [])
add_records s port (other_record ∷ rs) out = add_records s port rs out

-- `fromHost`, with what it returns and leaves in `out`; `query` is `DnsQuery`, which gives `none`
-- where it does not return ERROR_SUCCESS. Then `DnsRecordListFree` gets a pointer that was never set,
-- and the result is `none`.
unfoldable pub from_windows_host :
    Sockets
    → (Str → Option (List DnsRecord))
    → List InetAddress
    → Str
    → ℕ
    → Option (Bool × List InetAddress)
unfolding add_records
from_windows_host s query out name port = elim (query name) [
  | none ↦ none
  | some rs ↦ let found = add_records s port rs out in some (ltb 0 (length found), found)
]

-- What c-ares would answer with the same records.
abbrev pub addresses : List DnsRecord → List Str
addresses [] = []
addresses (a_record ip ∷ rs) = ip ∷ addresses rs
addresses (other_record ∷ rs) = addresses rs

abbrev pub as_cares : List DnsRecord → Cares
as_cares rs = record {
  library_init = true;
  channel_init = true;
  lookup = λ name. some (record { family = some inet; addresses = addresses rs });
}

add_records-add_addresses :
    (s : Sockets) (port : ℕ) (rs : List DnsRecord) (out : List InetAddress)
    → add_records s port rs out ≡ add_addresses s port inet (addresses rs) out
unfolding add_records add_addresses from
add_records-add_addresses s port [] out = refl
add_records-add_addresses s port (a_record ip ∷ rs) out =
    add_records-add_addresses s port rs (out ++ from s inet ip port ∷ [])
add_records-add_addresses s port (other_record ∷ rs) out = add_records-add_addresses s port rs out

-- The two builds agree where `DnsQuery` succeeds: looking a host up on Windows returns and leaves in
-- the vector what it does with c-ares, where c-ares can be initialised and answers with the addresses
-- of the records of the type A in their order.
pub from_windows_host-from_host :
    (s : Sockets) (query : Str → Option (List DnsRecord)) (rs : List DnsRecord) (inited : Bool)
    (out : List InetAddress) (name : Str) (port : ℕ)
    → query name ≡ some rs
    → let r = from_host s (as_cares rs) inited out name port in
      from_windows_host s query out name port ≡ some (r.result, r.out)
unfolding from_windows_host from_host dns_query_callback
from_windows_host-from_host s query rs inited out name port e =
    rw (from_windows_host, from_host, not_false inited, e)
      (ap (λ found. some (ltb 0 (length found), found)) (add_records-add_addresses s port rs out))
  where
    not_false : (b : Bool) → (not b && false) ≡ false
    not_false true = refl
    not_false false = refl
