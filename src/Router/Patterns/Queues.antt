-- ===== src/Router/Patterns/Queues.antt =====
-- The queue of parameters with which `RawTree::insert` of lib/src/router.cc goes along a pattern.
use cppmhd.Prelude.{ℕ, zero, suc, ◌≡◌, ◌⊎◌, refl, inl, inr, List, [], ◌∷◌, ◌++◌, Str, ap}
use cppmhd.Router.Node.{RouterNodeType}
use cppmhd.Router.Insert.{Param, find_wildcard}
use cppmhd.Router.Radix.Prefix.{IsPlain}
use cppmhd.Router.Patterns.Tokens.{Token, lit, param, rest, lits, written, IsPattern}
use cppmhd.Router.Patterns.Goals.{Goal, after}

-- A parameter of the right type for each wildcard.
abbrev pub Aligned : List Token → List Param → Type 0
Aligned [] ps = Unit
Aligned (lit c ∷ q) ps = Aligned q ps
Aligned (param ∷ q) [] = ⊥
Aligned (param ∷ q) (p ∷ ps) = (p.type ≡ RouterNodeType.param) × Aligned q ps
Aligned (rest ∷ q) [] = ⊥
Aligned (rest ∷ q) (p ∷ ps) = p.type ≡ RouterNodeType.catch_all

-- The same behind some parameters that were not taken off when they were passed.
abbrev pub Queued : ℕ → List Token → List Param → Type 0
Queued zero q ps = Aligned q ps
Queued (suc k) q [] = ⊥
Queued (suc k) q (p ∷ ps) = (p.type ≡ RouterNodeType.param) × Queued k q ps

-- Nothing is asked of the queue at the end of the pattern.
abbrev pub Ready : List Token → List Param → Type 0
Ready [] ps = Unit
Ready (t ∷ q) ps = (k : ℕ) × Queued k (t ∷ q) ps

Queued-Ready : (k : ℕ) (q : List Token) (ps : List Param) → Queued k q ps → Ready q ps
Queued-Ready k [] ps h = tt
Queued-Ready k (t ∷ q) ps h = (k, h)

Queued-lit : (k c : ℕ) (q : List Token) (ps : List Param) → Queued k (lit c ∷ q) ps → Queued k q ps
Queued-lit zero c q ps h = h
Queued-lit (suc k) c q [] h = absurd h
Queued-lit (suc k) c q (p ∷ ps) h = (h.0, Queued-lit k c q ps h.1)

Queued-param :
    (k : ℕ) (q : List Token) (ps : List Param) → Queued k (param ∷ q) ps → Queued (suc k) q ps
Queued-param zero q [] h = absurd h
Queued-param zero q (p ∷ ps) h = h
Queued-param (suc k) q [] h = absurd h
Queued-param (suc k) q (p ∷ ps) h = (h.0, Queued-param k q ps h.1)

-- Behind characters, and behind a parameter that is passed.
pub Ready-lits : (s : Str) (q : List Token) (ps : List Param) → Ready (lits s ++ q) ps → Ready q ps
Ready-lits [] q ps h = h
Ready-lits (c ∷ s) q ps (k, h) =
    Ready-lits s q ps (Queued-Ready k (lits s ++ q) ps (Queued-lit k c (lits s ++ q) ps h))

pub Ready-passed : (q : List Token) (ps : List Param) → Ready (param ∷ q) ps → Ready q ps
Ready-passed q ps (k, h) = Queued-Ready (suc k) q ps (Queued-param k q ps h)

-- The front of the queue is of the right type; in the place of a catch-all, it may be a parameter.
pub Ready-param :
    (q : List Token) (p : Param) (ps : List Param)
    → Ready (param ∷ q) (p ∷ ps)
    → (p.type ≡ RouterNodeType.param) × Ready q ps
Ready-param q p ps (zero, h) = (h.0, Queued-Ready 0 q ps h.1)
Ready-param q p ps (suc k, h) = (h.0, Queued-Ready (suc k) q ps (Queued-param k q ps h.1))

pub Ready-rest :
    (q : List Token) (p : Param) (ps : List Param)
    → Ready (rest ∷ q) (p ∷ ps)
    → (p.type ≡ RouterNodeType.catch_all) ⊎ (p.type ≡ RouterNodeType.param)
Ready-rest q p ps (zero, h) = inl h
Ready-rest q p ps (suc k, h) = inr h.0

-- A goal that allows the controller at the pattern, and with a parameter for its catch-all.
abbrev pub Allows : ℕ → Goal → List Token → Type 0
Allows c g [] = g [] c
Allows c g (lit x ∷ q) = Allows c (after (lit x ∷ []) g) q
Allows c g (param ∷ q) = Allows c (after (param ∷ []) g) q
Allows c g (rest ∷ q) = g (rest ∷ []) c × g (param ∷ []) c

pub Allows-lits :
    (c : ℕ) (g : Goal) (s : Str) (q : List Token)
    → Allows c g (lits s ++ q)
    → Allows c (after (lits s) g) q
Allows-lits c g [] q h = h
Allows-lits c g (x ∷ s) q h = Allows-lits c (after (lit x ∷ []) g) s q h

-- The characters up to the first wildcard, and what begins there.
abbrev pub IsWildcard : List Token → Type 0
IsWildcard [] = ⊥
IsWildcard (lit c ∷ q) = ⊥
IsWildcard (param ∷ q) = Unit
IsWildcard (rest ∷ q) = Unit

pub record Opening (q : List Token) : Type 0 where
  pub front : Str
  pub back : List Token
  pub whole : q ≡ lits front ++ back
  pub plain : IsPlain front
  pub pattern : IsPattern back
  pub wild : (back ≡ []) ⊎ IsWildcard back

pub opening : (q : List Token) → IsPattern q → Opening q
unfolding find_wildcard
opening [] h = record {
  front = [];
  back = [];
  whole = refl;
  plain = refl;
  pattern = tt;
  wild = inl refl;
}
opening (lit c ∷ q) h =
    let o = opening q h.1 in
    record {
      front = c ∷ o.front;
      back = o.back;
      whole = ap (◌∷◌ (lit c)) o.whole;
      plain = rw (h.0, o.plain) refl;
      pattern = o.pattern;
      wild = o.wild;
    }
opening (param ∷ q) h = record {
  front = [];
  back = param ∷ q;
  whole = refl;
  plain = refl;
  pattern = h;
  wild = inr tt;
}
opening (rest ∷ q) h = record {
  front = [];
  back = rest ∷ q;
  whole = refl;
  plain = refl;
  pattern = h;
  wild = inr tt;
}

pub written-lits : (s : Str) (q : List Token) → written (lits s ++ q) ≡ s ++ written q
written-lits [] q = refl
written-lits (c ∷ s) q = ap (◌∷◌ c) (written-lits s q)
