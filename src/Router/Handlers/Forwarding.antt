-- ===== src/Router/Handlers/Forwarding.antt =====
-- `Router::forward` of lib/src/router.cc, and the handlers of its tree.
use cppmhd.Prelude.{
  ℕ, zero, suc, ◌≡◌, refl, inl, inr, Bool, true, Str, length, take, drop, arith, Bool-cases,
  Option-cases,
}
use cppmhd.Utils.Regex.{Pcre}
use cppmhd.Router.Node.{Node, info, children, child_at, index_of, indice}
use cppmhd.Router.Forward.{
  Params, Outcome, answered, Round, return, descend, after_param, take_param, at_param, at_wild,
  inside, empty_wild, at_slash, at_end, round, forward_loop, find_until_slash, front,
}
use cppmhd.Router.Handlers.Owning.{owned, owns, owns-handle, child-owns}

module _ (p : ℕ → Bool) where
  abbrev pub outcome_owned : Outcome → Bool
  outcome_owned (answered a) = owned p a.handle
  outcome_owned _ = true

  abbrev round_owned : Round → Bool
  round_owned (return o) = outcome_owned o
  round_owned (descend n path ps) = owns p n

  after_param-owned :
      (n : Node) (path : Str) (size : ℕ) (ps : Params)
      → owns p n ≡ true
      → round_owned (after_param n path size ps) ≡ true
  unfolding after_param
  after_param-owned n path size ps h = elim (Option-cases (child_at 0 (children n))) [
    | inl e ↦ ground (arith, e, owns-handle p n h)
    | inr (c, e) ↦ ground (arith, e, owns-handle p n h, child-owns p 0 n c h e)
  ]

  module _ (pcre : Pcre) where
    at_param-owned :
        (n : Node) (path : Str) (ps : Params)
        → owns p n ≡ true
        → round_owned (at_param pcre n path ps) ≡ true
    unfolding at_param
    at_param-owned n path ps h =
        let size = find_until_slash path in
        elim (Option-cases (take_param pcre (info n) (take size path) ps)) [
          | inl e ↦ rw (at_param, e) refl
          | inr (ps', e) ↦ rw (at_param, e) (after_param-owned n path size ps' h)
        ]

    at_wild-owned :
        (n : Node) (path : Str) (ps : Params)
        → owns p n ≡ true
        → round_owned (at_wild pcre n path ps) ≡ true
    unfolding at_wild
    at_wild-owned n path ps h = elim (Option-cases (info n).handle) [
      | inl e ↦ ground (arith, e, h, at_param-owned n path ps h)
      | inr (c, e) ↦ ground (arith, e, h, owns-handle p n h, at_param-owned n path ps h)
    ]

    inside-owned :
        (n : Node) (path : Str) (ps : Params)
        → owns p n ≡ true
        → round_owned (inside pcre n path ps) ≡ true
    unfolding inside indice
    inside-owned n path ps h = elim (Bool-cases (info n).wildchild) [
      | inl w ↦ elim (Option-cases (child_at 0 (children n))) [
        | inl e ↦ rw (inside, w, e) refl
        | inr (c, e) ↦ rw (inside, w, e) (at_wild-owned c path ps (child-owns p 0 n c h e))
      ]
      | inr w ↦ elim (Option-cases (index_of (front path) (info n).indices)) [
        | inl e ↦ ground (arith, w, e)
        | inr (k, e) ↦ elim (Option-cases (child_at k (children n))) [
          | inl f ↦ ground (arith, w, e, f)
          | inr (c, f) ↦ ground (arith, w, e, f, child-owns p k n c h f)
        ]
      ]
    ]

    at_slash-owned : (n : Node) (ps : Params) → outcome_owned (at_slash pcre n ps) ≡ true
    unfolding at_slash
    at_slash-owned n ps = elim (Option-cases (indice n b'/')) [
      | inl e ↦ ground (arith, e)
      | inr (c, e) ↦ ground (arith, e, Option-cases (child_at 0 (children c)))
    ]

    at_end-owned :
        (n : Node) (ps : Params) → owns p n ≡ true → outcome_owned (at_end pcre n ps) ≡ true
    unfolding at_end empty_wild
    at_end-owned n ps h = elim (Option-cases (child_at 0 (children n))) [
      | inl e ↦ ground (arith, e, owns-handle p n h, at_slash-owned n ps)
      | inr (c, e) ↦ ground (
        arith,
        e,
        owns-handle p n h,
        owns-handle p c (child-owns p 0 n c h e),
        at_slash-owned n ps,
      )
    ]

    round-owned :
        (n : Node) (path : Str) (ps : Params)
        → owns p n ≡ true
        → round_owned (round pcre n path ps) ≡ true
    unfolding round
    round-owned n path ps h =
        ground (arith, inside-owned n (drop (length (info n).path) path) ps h, at_end-owned n ps h)

    -- In a tree whose handlers all pass the test, so does the one that is found.
    pub forward_loop-owned :
        (fuel : ℕ) (n : Node) (path : Str) (ps : Params)
        → owns p n ≡ true
        → outcome_owned (forward_loop pcre fuel n path ps) ≡ true
    unfolding forward_loop
    forward_loop-owned zero n path ps h = refl
    forward_loop-owned (suc fuel) n path ps h =
        go (round pcre n path ps) (round-owned n path ps h)
          (λ n' path' ps' g. forward_loop-owned fuel n' path' ps' g)
      where
        go :
            (r : Round)
            → round_owned r ≡ true
            → ((n' : Node) (path' : Str) (ps' : Params)
                → owns p n' ≡ true
                → outcome_owned (forward_loop pcre fuel n' path' ps') ≡ true)
            → outcome_owned (elim r [
              | return o ↦ o
              | descend n' path' ps' ↦ forward_loop pcre fuel n' path' ps'
            ])
              ≡ true
        go (return o) g k = g
        go (descend n' path' ps') g k = k n' path' ps' g
