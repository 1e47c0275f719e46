-- ===== src/Router/Ending/Forwarding.antt =====
-- The rounds of `Router::forward` of lib/src/router.cc.
use cppmhd.Prelude.{
  ℕ, zero, suc, ◌<◌, ◌≡◌, ◌≢◌, inl, inr, Bool, true, false, List, [], ◌∷◌, Str, ltb, length, take,
  drop, arith, Bool-cases, Option-cases,
}
use cppmhd.Core.{HttpMethod}
use cppmhd.Utils.Regex.{Pcre}
use cppmhd.Router.Node.{Node, info, children, child_at, index_of, indice, height}
use cppmhd.Router.Forward.{
  Params, Outcome, exhausted, Round, return, descend, RouterTrees, after_param, take_param,
  at_param, at_wild, inside, empty_wild, at_slash, at_end, round, forward_loop, forward,
  find_until_slash, front,
}
use cppmhd.Router.Ending.Heights.{child_at-height}

-- The fuel was enough.
abbrev pub ends : Outcome → Bool
ends exhausted = false
ends _ = true

-- A round that returns, or goes on with a node below the height.
abbrev falls : ℕ → Round → Bool
falls h (return o) = ends o
falls h (descend n path ps) = ltb (height n) h

falls-suc : (h : ℕ) (r : Round) → falls h r ≡ true → falls (suc h) r ≡ true
falls-suc h (return o) e = e
falls-suc h (descend n path ps) e = ground arith

falls_lower : (h k : ℕ) (r : Round) → falls (suc h) r ≡ true → h < k → falls k r ≡ true
falls_lower h k (return o) e lt = e
falls_lower h k (descend n path ps) e lt = ground arith

after_param-falls :
    (n : Node) (path : Str) (size : ℕ) (ps : Params)
    → falls (height n) (after_param n path size ps) ≡ true
unfolding after_param
after_param-falls n path size ps = elim (Option-cases (child_at 0 (children n))) [
  | inl e ↦ ground (arith, e)
  | inr (c, e) ↦ ground (arith, e, child_at-height 0 n c e)
]

module _ (pcre : Pcre) where
  at_param-falls :
      (n : Node) (path : Str) (ps : Params) → falls (height n) (at_param pcre n path ps) ≡ true
  unfolding at_param
  at_param-falls n path ps =
      let size = find_until_slash path in
      elim (Option-cases (take_param pcre (info n) (take size path) ps)) [
        | inl e ↦ rw (at_param, e)
        | inr (ps', e) ↦ rw (at_param, e) (after_param-falls n path size ps')
      ]

  at_wild-falls :
      (n : Node) (path : Str) (ps : Params) → falls (suc (height n)) (at_wild pcre n path ps) ≡ true
  unfolding at_wild
  at_wild-falls n path ps =
      ground (arith, at_param-falls n path ps, falls-suc (height n) (at_param pcre n path ps))

  inside-falls :
      (n : Node) (path : Str) (ps : Params) → falls (height n) (inside pcre n path ps) ≡ true
  unfolding inside indice
  inside-falls n path ps = elim (Bool-cases (info n).wildchild) [
    | inl w ↦ elim (Option-cases (child_at 0 (children n))) [
      | inl e ↦ rw (inside, w, e)
      | inr (c, e) ↦
          rw (inside, w, e)
            (falls_lower (height c) (height n) (at_wild pcre c path ps) (at_wild-falls c path ps)
              (child_at-height 0 n c e))
    ]
    | inr w ↦ elim (Option-cases (index_of (front path) (info n).indices)) [
      | inl e ↦ ground (arith, w, e)
      | inr (k, e) ↦ elim (Option-cases (child_at k (children n))) [
        | inl f ↦ ground (arith, w, e, f)
        | inr (c, f) ↦ ground (arith, w, e, f, child_at-height k n c f)
      ]
    ]
  ]

  at_slash-ends : (n : Node) (ps : Params) → ends (at_slash pcre n ps) ≡ true
  unfolding at_slash
  at_slash-ends n ps = elim (Option-cases (indice n b'/')) [
    | inl e ↦ ground (arith, e)
    | inr (c, e) ↦ ground (arith, e, Option-cases (child_at 0 (children c)))
  ]

  at_end-ends : (n : Node) (ps : Params) → ends (at_end pcre n ps) ≡ true
  unfolding at_end
  at_end-ends n ps = elim (Option-cases (child_at 0 (children n))) [
    | inl e ↦ ground (arith, e, at_slash-ends n ps)
    | inr (c, e) ↦ ground (arith, e, at_slash-ends n ps, Option-cases (empty_wild pcre c ps))
  ]

  round-falls :
      (n : Node) (path : Str) (ps : Params) → falls (height n) (round pcre n path ps) ≡ true
  unfolding round
  round-falls n path ps =
      ground (arith, inside-falls n (drop (length (info n).path) path) ps, at_end-ends n ps)

  -- With more fuel than the tree is high, the loop ends.
  forward_loop-ends :
      (fuel : ℕ) (n : Node) (path : Str) (ps : Params)
      → height n < fuel
      → ends (forward_loop pcre fuel n path ps) ≡ true
  unfolding forward_loop
  forward_loop-ends zero n path ps lt = absurd (omega arith)
  forward_loop-ends (suc fuel) n path ps lt =
      go (round pcre n path ps) (round-falls n path ps)
        (λ n' path' ps' h. forward_loop-ends fuel n' path' ps' h)
    where
      go :
          (r : Round)
          → falls (height n) r ≡ true
          → ((n' : Node) (path' : Str) (ps' : Params)
              → height n' < fuel
              → ends (forward_loop pcre fuel n' path' ps') ≡ true)
          → ends
              (elim r [ return o ↦ o | descend n' path' ps' ↦ forward_loop pcre fuel n' path' ps' ])
            ≡ true
      go (return o) h k = h
      go (descend n' path' ps') h k = k n' path' ps' (ground arith)

-- Forwarding ends, whatever the trees, the method and the path are.
pub forward-ends :
    (pcre : Pcre) (ts : List RouterTrees) (mtd : HttpMethod) (path : Str) (ps : Params)
    → forward pcre ts mtd path ps ≢ exhausted
unfolding forward
forward-ends pcre [] mtd path ps e = cc
forward-ends pcre (t ∷ ts) mtd path ps e = ground (
  arith,
  forward_loop-ends pcre (suc (height t.root)) t.root path ps,
  forward-ends pcre ts mtd path ps,
)
