-- ===== src/Router/Patterns/Routes.antt =====
-- Routes with their trails, and the patterns at which lib/src/router.cc may leave their handlers.
use cppmhd.Prelude.{
  ℕ, ◌≡◌, ◌≤◌, refl, Bool, true, false, List, [], ◌∷◌, ◌++◌, Str, ap, sym, ◌∙◌, subst, arith,
  length, length-append,
}
use mathlib.Core.List.{append-nil}
use cppmhd.Utils.Regex.{Pcre}
use cppmhd.Router.Insert.{Param, param_char, find_wildcard}
use cppmhd.Router.Radix.Lookup.{Starts}
use cppmhd.Router.Radix.Prefix.{IsPlain, IsPlain-append}
use cppmhd.Router.Table.Segments.{render}
use cppmhd.Router.Params.Trails.{Trail, end, last, more, text, pattern_of, queue, IsText, IsTrail}
use cppmhd.Router.Params.Trails as Trails
use cppmhd.Router.Params.Parsing.{Segment, word, wild, calced, IsRoute}
use cppmhd.Router.Patterns.Tokens.{
  Token, lit, param, rest, lits, written, Follows, IsPattern, Covers,
}
use cppmhd.Router.Patterns.Goals.{Goal, after}
use cppmhd.Router.Patterns.Queues.{Aligned, Ready, Allows, written-lits}

-- The pattern of a trail.
abbrev pub tokens_of : Trail → List Token
tokens_of (end s) = lits s
tokens_of (last s p) = lits s ++ param ∷ []
tokens_of (more s p t) = lits s ++ param ∷ tokens_of t
tokens_of (Trails.rest s p) = lits s ++ rest ∷ []

pub written-tokens_of : (t : Trail) → written (tokens_of t) ≡ pattern_of t
written-tokens_of (end s) =
    ap (λ q. written q) (sym (append-nil (lits s))) ∙ written-lits s [] ∙ append-nil s
written-tokens_of (last s p) = written-lits s (param ∷ [])
written-tokens_of (more s p t) =
    written-lits s (param ∷ tokens_of t) ∙ ap (λ r. s ++ param_char ∷ r) (written-tokens_of t)
written-tokens_of (Trails.rest s p) = written-lits s (rest ∷ [])

lits-IsPattern : (s : Str) (q : List Token) → IsPlain s → IsPattern q → IsPattern (lits s ++ q)
unfolding find_wildcard
lits-IsPattern [] q plain pat = pat
lits-IsPattern (x ∷ s) q plain pat =
    (ground arith, lits-IsPattern s q (IsPlain-append (x ∷ []) s plain) pat)

Starts-Follows : (s : Str) (q : List Token) → Starts b'/' s → Follows (lits s ++ q)
Starts-Follows [] q h = absurd h
Starts-Follows (x ∷ s) q h = h

tokens_of-Follows : (t : Trail) → Starts b'/' (text t) → Follows (tokens_of t)
tokens_of-Follows (end s) h = subst Follows (append-nil (lits s)) (Starts-Follows s [] h)
tokens_of-Follows (last s p) h = Starts-Follows s (param ∷ []) h
tokens_of-Follows (more s p t) h = Starts-Follows s (param ∷ tokens_of t) h
tokens_of-Follows (Trails.rest s p) h = Starts-Follows s (rest ∷ []) h

pub tokens_of-IsPattern : (t : Trail) → IsTrail t → IsPattern (tokens_of t)
tokens_of-IsPattern (end s) h = subst IsPattern (append-nil (lits s)) (lits-IsPattern s [] h.0 tt)
tokens_of-IsPattern (last s p) h = lits-IsPattern s (param ∷ []) h.0.0 (tt, tt)
tokens_of-IsPattern (more s p t) h =
    lits-IsPattern s (param ∷ tokens_of t) h.0.0
      (tokens_of-Follows t h.2, tokens_of-IsPattern t h.3)
tokens_of-IsPattern (Trails.rest s p) h = lits-IsPattern s (rest ∷ []) h.0.0 refl

lits-Aligned :
    (s : Str) (q : List Token) (ps : List Param) → Aligned q ps → Aligned (lits s ++ q) ps
lits-Aligned [] q ps h = h
lits-Aligned (x ∷ s) q ps h = lits-Aligned s q ps h

tokens_of-Aligned : (t : Trail) → IsTrail t → Aligned (tokens_of t) (queue t)
tokens_of-Aligned (end s) h =
    subst (λ q. Aligned q []) (append-nil (lits s)) (lits-Aligned s [] [] tt)
tokens_of-Aligned (last s p) h = lits-Aligned s (param ∷ []) (p ∷ []) (h.1, tt)
tokens_of-Aligned (more s p t) h =
    lits-Aligned s (param ∷ tokens_of t) (p ∷ queue t) (h.1, tokens_of-Aligned t h.3)
tokens_of-Aligned (Trails.rest s p) h = lits-Aligned s (rest ∷ []) (p ∷ []) h.1

Aligned-Ready : (q : List Token) (ps : List Param) → Aligned q ps → Ready q ps
Aligned-Ready [] ps h = tt
Aligned-Ready (x ∷ q) ps h = (0, h)

pub tokens_of-Ready : (t : Trail) → IsTrail t → Ready (tokens_of t) (queue t)
tokens_of-Ready t h = Aligned-Ready (tokens_of t) (queue t) (tokens_of-Aligned t h)

-- A goal that allows all that the pattern covers.
pub Covers-Allows :
    (q : List Token) (c : ℕ) (g : Goal)
    → IsPattern q
    → ((p : List Token) → Covers q p → g p c)
    → Allows c g q
Covers-Allows [] c g pat h = h [] tt
Covers-Allows (lit x ∷ q) c g pat h =
    Covers-Allows q c (after (lit x ∷ []) g) pat.1 (λ p k. h (lit x ∷ p) (refl, k))
Covers-Allows (param ∷ q) c g pat h =
    Covers-Allows q c (after (param ∷ []) g) pat.1 (λ p k. h (param ∷ p) k)
Covers-Allows (rest ∷ q) c g pat h = (h (rest ∷ []) (pat, refl), h (param ∷ []) (pat, refl))

-- What is inserted begins with a slash.
pub pattern_of-Starts :
    {pcre : Pcre} {path : Str} (t : Trail) → IsRoute pcre path t → Starts b'/' (pattern_of t)
pattern_of-Starts t v = begin v.segments v.trailing v.pattern
  where
    long : (t : Trail) → IsTrail t → 1 ≤ length (pattern_of t)
    long (end s) h = h.1
    long (last s p) h = omega (arith, h.0.1, length-append s (param_char ∷ []))
    long (more s p t) h = omega (arith, h.0.1, length-append s (param_char ∷ pattern_of t))
    long (Trails.rest s p) h = omega (arith, h.0.1, length-append s (param_char ∷ []))

    begin :
        (ss : List Segment) (b : Bool)
        → pattern_of t ≡ calced ss ++ render [] b
        → Starts b'/' (pattern_of t)
    begin [] true e = subst (Starts b'/') (sym e) refl
    begin [] false e = absurd (omega (arith, long t v.trail, ap length e))
    begin (word s ∷ ss) b e = subst (Starts b'/') (sym e) refl
    begin (wild s p ∷ ss) b e = subst (Starts b'/') (sym e) refl
