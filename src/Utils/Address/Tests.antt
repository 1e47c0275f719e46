-- ===== src/Utils/Address/Tests.antt =====
-- A system whose texts are the bytes of an address behind a mark of its family.
use cppmhd.Prelude.{
  ℕ, ◌≡◌, ◌<◌, refl, true, false, ◌&&◌, Option, none, some, List, [], ◌∷◌, ◌++◌, Str, codes,
  decimal, ◌==◌, if◌then◌else◌, length, arith,
}
use cppmhd.Utils.Address.{Family, inet, inet6, Sockets, InetAddress, zeroed, from, parse, format}
use cppmhd.Utils.Address.Texts.{width, IsNet, IsWritten, format-parse}
use cppmhd.Utils.Address.Windows.{
  DnsRecord, a_record, other_record, from_windows_host, as_cares, from_windows_host-from_host,
}
use cppmhd.Utils.Address.Hosts.{HostEntry, Cares, from_host, Added, from_host-Added}

abbrev mark : Family → ℕ
mark Family.inet = 4
mark Family.inet6 = 6

abbrev read : Family → Str → Option Str
read f [] = none
read f (c ∷ b) = if c == mark f && length b == width f then some b else none

abbrev pub tags : Sockets
tags = record { pton = read; ntop = λ f b. mark f ∷ b; htons = λ p. p; ntohs = λ p. p }

read_back_lem : (f : Family) (b : Str) → length b ≡ width f → read f (mark f ∷ b) ≡ some b
read_back_lem Family.inet b h = ground (arith, h)
read_back_lem Family.inet6 b h = ground (arith, h)

read_sized : (f : Family) (t b : Str) → read f t ≡ some b → length b ≡ width f
read_sized f [] b e = cc
read_sized f (c ∷ t) b e = ground (arith, e)

tags-IsNet : IsNet tags
tags-IsNet = record {
  read_back = read_back_lem;
  apart = λ b h. refl;
  sized = read_sized;
  ports = λ p lt. refl;
}

abbrev local : Str
local = 127 ∷ 0 ∷ 0 ∷ 1 ∷ []

abbrev local_address : InetAddress
local_address = record {
  ipv6 = false;
  port = 8080;
  address = record { family = inet; port = 8080; bytes = local };
}

local-IsWritten : IsWritten tags local_address
unfolding from
local-IsWritten = record { full = refl; size = refl; small = omega arith }

format-parse_example :
    (host : Str) × (format tags (codes "h") local_address ≡ some host)
    × (format tags (codes "p") local_address ≡ some (decimal 8080))
    × (format tags [] local_address ≡ some (host ++ b':' ∷ decimal 8080))
    × ((old : InetAddress) → parse tags old host 8080 ≡ (true, local_address))
format-parse_example = format-parse tags local_address tags-IsNet local-IsWritten

abbrev found : Cares
found = record {
  library_init = true;
  channel_init = true;
  lookup = λ name. some (record { family = some inet; addresses = local ∷ [] });
}

from_host-Added_example :
    let r = from_host tags found false [] (codes "localhost") 80 in
    Added tags 80 [] r.out
    × (r.result ≡ true → 0 < length r.out)
    × (0 < length r.out → r.result ≡ true)
unfolding cppmhd.Utils.Address.Hosts.IsSized
from_host-Added_example =
    from_host-Added tags found false [] (codes "localhost") 80 (omega arith) (refl, tt)

-- A name with a v4 address and a record of another type.
abbrev records : List DnsRecord
records = other_record ∷ (a_record local ∷ [])

from_windows_host-from_host_example :
    let r = from_host tags (as_cares records) false [] (codes "localhost") 80 in
    from_windows_host tags (λ name. some records) [] (codes "localhost") 80 ≡ some (r.result, r.out)
from_windows_host-from_host_example =
    from_windows_host-from_host tags (λ name. some records) records false [] (codes "localhost") 80
      refl
