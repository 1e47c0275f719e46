-- ===== src/Router/Radix/Forwarding.antt =====
-- `Router::forward` on a static tree answers with the handler that the tree stands for.
use cppmhd.Prelude.{
  ℕ, zero, suc, ◌≤◌, ◌<◌, ◌≡◌, ◌⊎◌, inl, inr, Bool, true, false, ◌&&◌, Option, none, some, [], ◌∷◌,
  Str, str_eq, ltb, ltb→lt, ◌==◌, is_some, length, arith, Bool-cases, Option-cases, ◌∙◌,
}
use cppmhd.Utils.Regex.{Pcre}
use cppmhd.Router.Node.{Info, Node, Nodes, node, info, index_of, indice, height}
use cppmhd.Router.Forward.{
  Params, reply, Round, return, descend, inside, at_slash, at_end, tsr_at_end, round, forward_loop,
  slash,
}
use cppmhd.Router.Radix.Strip.{strip, strip_short, is_prefix-strip, strip-drop, length-strip}
use cppmhd.Router.Radix.Lookup.{IsRadix, lookup, lookup_below}
use cppmhd.Router.Radix.Children.{IsChild-found, lookup_below-none, height-node}

pub lookup_cases :
    (i : Info) (ns : Nodes) (path : Str) (o : Option Str)
    → strip i.path path ≡ o
    → lookup (node i ns) path
      ≡ elim o [ none ↦ none | some [] ↦ i.handle | some (c ∷ s) ↦ lookup_below i.indices ns c s ]
unfolding lookup
lookup_cases i ns path o e = rw (e, lookup)

IsRadix-wildchild : (n : Node) → IsRadix n → (info n).wildchild ≡ false
IsRadix-wildchild (node i ns) h = h.0

module _ (pcre : Pcre) where
  -- A round at a static node returns what the tree stands for, or goes down to a static child that
  -- stands for the same at the rest of the path.
  abbrev Rounds : Node → Str → Params → Round → Type 0
  Rounds n path ps r =
      ((tsr : Bool) × (r ≡ return (reply (lookup n path) ps tsr)))
      ⊎ ((c : Node) × (path' : Str) × (r ≡ descend c path' ps)
          × IsRadix c
          × (suc (height c) ≤ height n)
          × (lookup n path ≡ lookup c path'))

  -- No handler comes from the slash that a static node may have as an index.
  at_slash-handle :
      (i : Info) (ns : Nodes) (ps : Params)
      → IsRadix (node i ns)
      → (tsr : Bool) × (at_slash pcre (node i ns) ps ≡ reply none ps tsr)
  unfolding at_slash indice
  at_slash-handle i ns ps h = elim (Option-cases (index_of b'/' i.indices)) [
    | inl a ↦ (false, ground arith)
    | inr (k, a) ↦
        let (m, d) = IsChild-found b'/' k i.indices ns h.2 a in
        let here = IsRadix-wildchild m d.radix in
        (length (info m).path == 1 && is_some (info m).handle, ground (arith, d.at, here))
  ]

  inside-Rounds :
      (i : Info) (ns : Nodes) (c : ℕ) (s : Str) (path : Str) (ps : Params)
      → IsRadix (node i ns)
      → strip i.path path ≡ some (c ∷ s)
      → Rounds (node i ns) path ps (inside pcre (node i ns) (c ∷ s) ps)
  unfolding inside indice
  inside-Rounds i ns c s path ps h e =
      let looked = lookup_cases i ns path (some (c ∷ s)) e in
      elim (Option-cases (index_of c i.indices)) [
        | inl a ↦ inl (
          str_eq (c ∷ s) slash && is_some i.handle,
          ground (arith, looked, lookup_below-none i.indices ns c s),
        )
        | inr (k, a) ↦
            let (m, d) = IsChild-found c k i.indices ns h.2 a in
            inr (
              m,
              c ∷ s,
              ground (arith, d.at),
              d.radix,
              omega (arith, d.lower, height-node i ns),
              looked ∙ d.looked s,
            )
      ]

  round_inside :
      (i : Info) (ns : Nodes) (path r : Str) (ps : Params)
      → IsRadix (node i ns)
      → ltb (length i.path) (length path) ≡ true
      → strip i.path path ≡ some r
      → Rounds (node i ns) path ps (inside pcre (node i ns) r ps)
  round_inside i ns path [] ps h longer e =
      absurd (omega (arith, ltb→lt _ _ longer, length-strip i.path path [] e))
  round_inside i ns path (c ∷ s) ps h longer e = inside-Rounds i ns c s path ps h e

  at_end-Rounds :
      (i : Info) (ns : Nodes) (path : Str) (ps : Params)
      → IsRadix (node i ns)
      → strip i.path path ≡ some []
      → Rounds (node i ns) path ps (return (at_end pcre (node i ns) ps))
  unfolding at_end
  at_end-Rounds i ns path ps h e =
      let looked = lookup_cases i ns path (some []) e in
      let (tsr, slashed) = at_slash-handle i ns ps h in
      elim (Option-cases i.handle) [
        | inl a ↦ inl (tsr, ground (arith, looked, slashed))
        | inr (k, a) ↦ inl (false, ground (arith, looked))
      ]

  missed-Rounds :
      (i : Info) (ns : Nodes) (path : Str) (ps : Params)
      → strip i.path path ≡ none
      → Rounds (node i ns) path ps (return (reply none ps (tsr_at_end (node i ns) path)))
  missed-Rounds i ns path ps e =
      inl (tsr_at_end (node i ns) path, rw (lookup_cases i ns path none e))

  round-Rounds :
      (n : Node) (path : Str) (ps : Params) → IsRadix n → Rounds n path ps (round pcre n path ps)
  unfolding round
  round-Rounds (node i ns) path ps h = elim (Bool-cases (ltb (length i.path) (length path))) [
    | inl longer ↦
        let same = is_prefix-strip i.path path (ground arith) in
        elim (Option-cases (strip i.path path)) [
          | inl e ↦ rw (longer, same, e) (missed-Rounds i ns path ps e)
          | inr (r, e) ↦
              let go = round_inside i ns path r ps h longer e in
              rw (longer, same, e, strip-drop i.path path r e) go
        ]
    | inr short ↦
        let cut = strip_short i.path path (ground arith) in
        elim (Bool-cases (str_eq i.path path)) [
          | inl e ↦ rw (short, e) (at_end-Rounds i ns path ps h (rw e at cut))
          | inr e ↦ rw (short, e) (missed-Rounds i ns path ps (rw e at cut))
        ]
  ]

  -- In a static tree, on more fuel than the tree is high, the loop ends with the handler that the
  -- tree's map has for the path, whatever the path, and leaves the parameters alone.
  pub forward_loop-lookup :
      (fuel : ℕ) (n : Node) (path : Str) (ps : Params)
      → IsRadix n
      → height n < fuel
      → (tsr : Bool) × (forward_loop pcre fuel n path ps ≡ reply (lookup n path) ps tsr)
  unfolding forward_loop
  forward_loop-lookup zero n path ps h lt = elim lt [ ]
  forward_loop-lookup (suc fuel) n path ps h lt = elim (round-Rounds n path ps h) [
    | inl (tsr, e) ↦ (tsr, rw (forward_loop, e))
    | inr (c, path', e, radix, lower, same) ↦
        let (tsr, rest) = forward_loop-lookup fuel c path' ps radix (omega arith) in
        (tsr, rw (forward_loop, e, same) rest)
  ]
