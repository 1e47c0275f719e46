-- ===== src/Router/Patterns/Tokens.antt =====
-- Patterns of paths, and the requests that fit one: what the paths mean that lib/src/router.cc inserts.
use cppmhd.Prelude.{ℕ, ◌≡◌, ◌⊎◌, refl, false, List, [], ◌∷◌, ◌++◌, Str, ◌==◌, All, subst, inl, inr}
use cppmhd.Router.Insert.{param_char}
use cppmhd.Router.Radix.Lookup.{Starts}

-- A character, a parameter, or the catch-all at the end.
pub data Token : Type 0 where
  lit : ℕ → Token
  param rest : Token

-- The pattern as it is written in the path that is inserted.
abbrev pub written : List Token → Str
written [] = []
written (lit c ∷ q) = c ∷ written q
written (param ∷ q) = param_char ∷ written q
written (rest ∷ q) = param_char ∷ written q

abbrev pub lits : Str → List Token
lits [] = []
lits (c ∷ s) = lit c ∷ lits s

-- Characters are no wildcards; behind a parameter comes a slash, and behind a catch-all nothing.
abbrev pub Follows : List Token → Type 0
Follows [] = Unit
Follows (lit c ∷ q) = c ≡ b'/'
Follows (param ∷ q) = ⊥
Follows (rest ∷ q) = ⊥

abbrev pub IsPattern : List Token → Type 0
IsPattern [] = Unit
IsPattern (lit c ∷ q) = ((c == param_char) ≡ false) × IsPattern q
IsPattern (param ∷ q) = Follows q × IsPattern q
IsPattern (rest ∷ q) = q ≡ []

abbrev pub NoSlash : Str → Type 0
NoSlash v = All (λ x. (x == b'/') ≡ false) v

-- The requests that fit: each parameter stands for a text without a slash, and a catch-all for any
-- text. A parameter at the end also takes an empty text and what follows it, if that is a slash.
abbrev pub Instance : List Token → Str → Type 0
Instance [] [] = Unit
Instance [] (x ∷ s) = ⊥
Instance (lit c ∷ q) [] = ⊥
Instance (lit c ∷ q) (x ∷ s) = (x ≡ c) × Instance q s
Instance (param ∷ q) s =
    ((v : Str) × (r : Str) × (s ≡ v ++ r) × NoSlash v × Instance q r) ⊎ ((q ≡ []) × Starts b'/' s)
Instance (rest ∷ q) s = q ≡ []

pub Instance-lits :
    (s : Str) (q : List Token) (r : Str) → Instance q r → Instance (lits s ++ q) (s ++ r)
Instance-lits [] q r h = h
Instance-lits (c ∷ s) q r h = (refl, Instance-lits s q r h)

-- A single wildcard.
abbrev pub IsLast : List Token → Type 0
IsLast [] = ⊥
IsLast (lit c ∷ p) = ⊥
IsLast (param ∷ p) = p ≡ []
IsLast (rest ∷ p) = p ≡ []

-- The second pattern is the first, or has a parameter in the place of the catch-all.
abbrev pub Covers : List Token → List Token → Type 0
Covers [] [] = Unit
Covers [] (t ∷ p) = ⊥
Covers (lit c ∷ q) (lit d ∷ p) = (d ≡ c) × Covers q p
Covers (lit c ∷ q) [] = ⊥
Covers (lit c ∷ q) (param ∷ p) = ⊥
Covers (lit c ∷ q) (rest ∷ p) = ⊥
Covers (param ∷ q) (param ∷ p) = Covers q p
Covers (param ∷ q) [] = ⊥
Covers (param ∷ q) (lit d ∷ p) = ⊥
Covers (param ∷ q) (rest ∷ p) = ⊥
Covers (rest ∷ q) p = (q ≡ []) × IsLast p

Covers-empty : (q : List Token) → Covers q [] → q ≡ []
Covers-empty [] h = refl
Covers-empty (lit c ∷ q) h = absurd h
Covers-empty (param ∷ q) h = absurd h
Covers-empty (rest ∷ q) h = absurd h.1

pub Covers-Instance : (q p : List Token) (s : Str) → Covers q p → Instance p s → Instance q s
Covers-Instance [] [] s h i = i
Covers-Instance [] (t ∷ p) s h i = absurd h
Covers-Instance (lit c ∷ q) (lit d ∷ p) [] h i = absurd i
Covers-Instance (lit c ∷ q) (lit d ∷ p) (x ∷ s) h i = (cc (i.0, h.0), Covers-Instance q p s h.1 i.1)
Covers-Instance (lit c ∷ q) [] s h i = absurd h
Covers-Instance (lit c ∷ q) (param ∷ p) s h i = absurd h
Covers-Instance (lit c ∷ q) (rest ∷ p) s h i = absurd h
Covers-Instance (param ∷ q) (param ∷ p) s h (inl (v, r, e, n, i)) =
    inl (v, r, e, n, Covers-Instance q p r h i)
Covers-Instance (param ∷ q) (param ∷ p) s h (inr (e, st)) =
    inr (Covers-empty q (subst (Covers q) e h), st)
Covers-Instance (param ∷ q) [] s h i = absurd h
Covers-Instance (param ∷ q) (lit d ∷ p) s h i = absurd h
Covers-Instance (param ∷ q) (rest ∷ p) s h i = absurd h
Covers-Instance (rest ∷ q) p s h i = h.0
