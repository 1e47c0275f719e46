-- ===== src/Router/Params/Trails.antt =====
-- A route with parameters, as the texts between the wildcards, the nodes it becomes in the tree of
-- lib/src/router.cc, and the requests that it is meant for.
use cppmhd.Prelude.{
  Option, none, str_eq, if◌then◌else◌, ℕ, ◌≤◌, ◌≡◌, true, false, some, List, [], ◌∷◌, ◌++◌, Str,
  ◌==◌, All, length,
}
use cppmhd.Utils.Regex.{Pcre, match}
use cppmhd.Router.Node.{Info, Node, node, nil, cons, RouterNodeType}
use cppmhd.Router.Forward.{Params, emplace}
use cppmhd.Router.Insert.{Param, param_char, param_info, next_info, catch_all_info, static_end}
use cppmhd.Router.Radix.Lookup.{Starts}
use cppmhd.Router.Radix.Prefix.{IsPlain}

-- A text with a parameter behind it, as often as it is wanted, and then a text alone, a last
-- parameter or a catch-all.
pub data Trail : Type 0 where
  end : Str → Trail
  last : Str → Param → Trail
  more : Str → Param → Trail → Trail
  rest : Str → Param → Trail

-- The text that the trail begins with.
abbrev pub text : Trail → Str
text (end s) = s
text (last s p) = s
text (more s p t) = s
text (rest s p) = s

-- The path that is inserted, and the parameters that are queued with it.
abbrev pub pattern_of : Trail → Str
pattern_of (end s) = s
pattern_of (last s p) = s ++ param_char ∷ []
pattern_of (more s p t) = s ++ param_char ∷ pattern_of t
pattern_of (rest s p) = s ++ param_char ∷ []

abbrev pub queue : Trail → List Param
queue (end s) = []
queue (last s p) = p ∷ []
queue (more s p t) = p ∷ queue t
queue (rest s p) = p ∷ []

-- A node with the text as its path and a wildcard below it.
abbrev pub with_wild : Str → Info → Info
with_wild s i = record i { path = s; type = RouterNodeType.static_part; wildchild = true }

-- The node `i` when the trail has been inserted at it.
abbrev pub chain : ℕ → Info → Trail → Node
chain c i (end s) = node (static_end s (some c) i) nil
chain c i (last s p) =
    node (with_wild s i) (cons (node (record (param_info p) { handle = some c }) nil) nil)
chain c i (more s p t) =
    node (with_wild s i)
      (cons (node (param_info p) (cons (chain c (next_info (pattern_of t)) t) nil)) nil)
chain c i (rest s p) = node (with_wild s i) (cons (node (catch_all_info p (some c)) nil) nil)

-- Texts are not empty and have no wildcard character; behind a parameter comes a slash.
abbrev pub IsText : Str → Type 0
IsText s = IsPlain s × (1 ≤ length s)

abbrev pub IsTrail : Trail → Type 0
IsTrail (end s) = IsText s
IsTrail (last s p) = IsText s × (p.type ≡ RouterNodeType.param)
IsTrail (more s p t) = IsText s × (p.type ≡ RouterNodeType.param) × Starts b'/' (text t) × IsTrail t
IsTrail (rest s p) = IsText s × (p.type ≡ RouterNodeType.catch_all)

-- The request that has the values for the parameters.
abbrev pub fill : Trail → List Str → Str
fill (end s) vs = s
fill (last s p) [] = s
fill (last s p) (v ∷ vs) = s ++ v
fill (more s p t) [] = s
fill (more s p t) (v ∷ vs) = s ++ (v ++ fill t vs)
fill (rest s p) [] = s
fill (rest s p) (v ∷ vs) = s ++ v

-- The parameters that a controller is to see.
abbrev pub named : Trail → List Str → Params → Params
named (end s) vs ps = ps
named (last s p) [] ps = ps
named (last s p) (v ∷ vs) ps = emplace p.name v ps
named (more s p t) [] ps = ps
named (more s p t) (v ∷ vs) ps = named t vs (emplace p.name v ps)
named (rest s p) [] ps = ps
named (rest s p) (v ∷ vs) ps = emplace p.name v ps

-- The names of the parameters with the values, in the order of the route.
abbrev pub pairs : Trail → List Str → Params
pairs (end s) vs = []
pairs (last s p) [] = []
pairs (last s p) (v ∷ vs) = (p.name, v) ∷ []
pairs (more s p t) [] = []
pairs (more s p t) (v ∷ vs) = (p.name, v) ∷ pairs t vs
pairs (rest s p) [] = []
pairs (rest s p) (v ∷ vs) = (p.name, v) ∷ []

-- The value of the first pair that has the name.
abbrev pub first_value : Params → Str → Option Str
first_value [] x = none
first_value ((k, v) ∷ ps) x = if str_eq k x then some v else first_value ps x

-- A value for a parameter: a segment that its pattern matches.
abbrev pub IsValue : Pcre → Param → Str → Type 0
IsValue pcre p v = All (λ x. (x == b'/') ≡ false) v × (1 ≤ length v) × (match pcre p.re v ≡ true)

-- One value for each parameter; a catch-all takes anything.
abbrev pub Fits : Pcre → Trail → List Str → Type 0
Fits pcre (end s) [] = Unit
Fits pcre (end s) (v ∷ vs) = ⊥
Fits pcre (last s p) [] = ⊥
Fits pcre (last s p) (v ∷ []) = IsValue pcre p v
Fits pcre (last s p) (v ∷ w ∷ vs) = ⊥
Fits pcre (more s p t) [] = ⊥
Fits pcre (more s p t) (v ∷ vs) = IsValue pcre p v × Fits pcre t vs
Fits pcre (rest s p) [] = ⊥
Fits pcre (rest s p) (v ∷ []) = Unit
Fits pcre (rest s p) (v ∷ w ∷ vs) = ⊥
