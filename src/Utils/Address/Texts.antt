-- ===== src/Utils/Address/Texts.antt =====
-- Socket addresses and their texts: `InetAddress` of lib/src/utils.h, utils.cc and lib/src/format.h.
use cppmhd.Prelude.{
  ℕ, ◌^◌, ◌<◌, ◌≡◌, ◌⊎◌, inl, inr, refl, true, false, none, some, [], ◌∷◌, ◌++◌, Str, codes,
  decimal, length, sym, subst, Option-cases,
}
use cppmhd.Utils.Address.{Family, inet, inet6, Sockets, InetAddress, from, parse, format}

abbrev pub width : Family → ℕ
width Family.inet = 4
width Family.inet6 = 16

-- What the documentation of the system's functions says: `inet_pton` reads what `inet_ntop` writes,
-- and reads no text of the other family; it writes as many bytes as the family has; and `ntohs`
-- inverts `htons`.
pub record IsNet (s : Sockets) : Type 0 where
  pub read_back : (f : Family) (b : Str) → length b ≡ width f → s.pton f (s.ntop f b) ≡ some b
  pub apart : (b : Str) → length b ≡ 16 → s.pton inet (s.ntop inet6 b) ≡ none
  pub sized : (f : Family) (t b : Str) → s.pton f t ≡ some b → length b ≡ width f
  pub ports : (p : ℕ) → p < 2 ^ 16 → s.ntohs (s.htons p) ≡ p

-- An address that is written in full: the flag, the port and the member agree.
pub record IsWritten (s : Sockets) (a : InetAddress) : Type 0 where
  pub full : a ≡ from s a.address.family a.address.bytes a.port
  pub size : length a.address.bytes ≡ width a.address.family
  pub small : a.port < 2 ^ 16

pub from-IsWritten :
    (s : Sockets) (f : Family) (b : Str) (port : ℕ)
    → length b ≡ width f
    → port < 2 ^ 16
    → IsWritten s (from s f b port)
unfolding from
from-IsWritten s f b port h lt = record { full = refl; size = h; small = lt }

-- Parsing either succeeds, and writes the address in full with the given port; or the text is no
-- address of either family, and the port alone is overwritten.
pub parse_lem :
    (s : Sockets) (old : InetAddress) (text : Str) (port : ℕ)
    → IsNet s
    → port < 2 ^ 16
    → let (ok, a) = parse s old text port in
      ((ok ≡ true) × IsWritten s a × (a.port ≡ port))
      ⊎ ((ok ≡ false)
          × (s.pton inet text ≡ none)
          × (s.pton inet6 text ≡ none)
          × (a ≡ record old { port = port }))
unfolding parse from
parse_lem s old text port v lt = elim (Option-cases (s.pton inet text)) [
  | inr (b, e) ↦
      rw (parse, e) (inl (refl, from-IsWritten s inet b port (v.sized inet text b e) lt, refl))
  | inl e ↦ elim (Option-cases (s.pton inet6 text)) [
    | inr (b, f) ↦
        rw (parse, e, f)
          (inl (refl, from-IsWritten s inet6 b port (v.sized inet6 text b f) lt, refl))
    | inl f ↦ rw (parse, e, f) (inr (refl, refl, refl, refl))
  ]
]

-- The texts of an address that `from` makes, and what they are parsed to.
abbrev Texts : Sockets → InetAddress → Type 0
Texts s a =
    (host : Str) × (format s (codes "h") a ≡ some host)
    × (format s (codes "p") a ≡ some (decimal a.port))
    × (format s [] a ≡ some (host ++ b':' ∷ decimal a.port))
    × ((old : InetAddress) → parse s old host a.port ≡ (true, a))

from-Texts :
    (s : Sockets) (f : Family) (b : Str) (port : ℕ)
    → IsNet s
    → length b ≡ width f
    → port < 2 ^ 16
    → Texts s (from s f b port)
unfolding from format parse
from-Texts s Family.inet b port v h lt =
    let e = v.ports port lt in
    (s.ntop inet b, refl, rw e refl, rw e refl, λ old. rw (parse, v.read_back inet b h) refl)
from-Texts s Family.inet6 b port v h lt =
    let e = v.ports port lt in
    (
      s.ntop inet6 b,
      refl,
      rw e refl,
      rw e refl,
      λ old. rw (parse, v.apart b h, v.read_back inet6 b h) refl,
    )

-- An address that is written in full has a text for the host, one for the port and one for both; and
-- the text for the host, parsed with the port, gives back the address, whatever was there before.
pub format-parse :
    (s : Sockets) (a : InetAddress)
    → IsNet s
    → IsWritten s a
    → (host : Str) × (format s (codes "h") a ≡ some host)
      × (format s (codes "p") a ≡ some (decimal a.port))
      × (format s [] a ≡ some (host ++ b':' ∷ decimal a.port))
      × ((old : InetAddress) → parse s old host a.port ≡ (true, a))
format-parse s a v w =
    subst (Texts s) (sym w.full)
      (from-Texts s a.address.family a.address.bytes a.port v w.size w.small)
