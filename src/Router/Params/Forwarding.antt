-- ===== src/Router/Params/Forwarding.antt =====
-- `Router::forward` of lib/src/router.cc on the nodes of a route with parameters.
use cppmhd.Prelude.{
  ℕ, zero, suc, ◌≤◌, ◌<◌, ◌≡◌, refl, sym, ap, ◌∙◌, subst, true, false, none, some, is_some, List,
  [], ◌∷◌, ◌++◌, Str, str_eq_self, ◌==◌, ltb, All, length, length-append, arith,
}
use mathlib.Core.List.{append-nil}
use cppmhd.Utils.Regex.{Pcre, match}
use cppmhd.Router.Node.{
  Info, Node, Nodes, node, nil, cons, info, RouterNodeType, is_catch_all, child_at, height,
}
use cppmhd.Router.Insert.{Param, param_info, next_info, catch_all_info, static_end}
use cppmhd.Router.Forward.{
  Params, reply, return, descend, emplace, find_until_slash, is_prefix, after_param, take_param,
  at_param, at_catch_all, at_wild, inside, empty_wild, at_end, round, forward_loop,
}
use cppmhd.Router.Radix.Lookup.{Starts}
use cppmhd.Router.Radix.Strip.{strip-append, is_prefix-strip}
use cppmhd.Router.Radix.Prefix.{take_common}
use cppmhd.Router.Params.Inserting.{drop_text}
use cppmhd.Router.Params.Trails.{
  Trail, end, last, more, rest, text, pattern_of, with_wild, chain, IsTrail, fill, named, IsValue,
  Fits,
}

-- A segment ends at a slash or at the end.
abbrev IsEnd : Str → Type 0
IsEnd [] = Unit
IsEnd (x ∷ s) = x ≡ b'/'

find_until_slash-value :
    (v r : Str) → All (λ x. (x == b'/') ≡ false) v → IsEnd r → find_until_slash (v ++ r) ≡ length v
unfolding find_until_slash
find_until_slash-value [] [] h e = refl
find_until_slash-value [] (x ∷ r) h e = ground (arith, e)
find_until_slash-value (x ∷ v) r h e = rw (h.0, find_until_slash-value v r h.1 e)

module _ (pcre : Pcre) where
  -- A round at a text in front of a wildcard.
  round-wild :
      (i : Info) (s r : Str) (c : Node) (ps : Params)
      → 1 ≤ length r
      → round pcre (node (with_wild s i) (cons c nil)) (s ++ r) ps ≡ at_wild pcre c r ps
  unfolding round inside child_at
  round-wild i s r c ps h =
      let long : ltb (length s) (length (s ++ r)) ≡ true = ground (arith, length-append s r) in
      let starts : is_prefix (s ++ r) s ≡ true =
        is_prefix-strip s (s ++ r) (omega (arith, length-append s r))
        ∙ ap is_some (strip-append s r) in
      rw (long, starts, drop_text s r)

  at_wild-param :
      (n : Node) (path : Str) (ps : Params)
      → (info n).type ≡ RouterNodeType.param
      → at_wild pcre n path ps ≡ at_param pcre n path ps
  unfolding at_wild
  at_wild-param n path ps e =
      ap
        (λ (t : RouterNodeType). elim t [
          | RouterNodeType.param ↦ at_param pcre n path ps
          | RouterNodeType.catch_all ↦
              at_catch_all pcre.asserts (info n).handle (emplace (info n).name path ps)
          | _ ↦ descend n path ps
        ])
        e

  at_wild-rest :
      (n : Node) (path : Str) (ps : Params)
      → (info n).type ≡ RouterNodeType.catch_all
      → at_wild pcre n path ps
        ≡ at_catch_all pcre.asserts (info n).handle (emplace (info n).name path ps)
  unfolding at_wild
  at_wild-rest n path ps e =
      ap
        (λ (t : RouterNodeType). elim t [
          | RouterNodeType.param ↦ at_param pcre n path ps
          | RouterNodeType.catch_all ↦
              at_catch_all pcre.asserts (info n).handle (emplace (info n).name path ps)
          | _ ↦ descend n path ps
        ])
        e

  take_param-value :
      (i : Info) (v : Str) (ps : Params)
      → 1 ≤ length v
      → match pcre i.re v ≡ true
      → take_param pcre i v ps ≡ some (emplace i.name v ps)
  unfolding take_param
  take_param-value i [] ps h e = absurd (omega arith)
  take_param-value i (x ∷ v) ps h e = rw e

  at_param-value :
      (i : Info) (v r : Str) (cs : Nodes) (ps : Params)
      → All (λ x. (x == b'/') ≡ false) v
      → 1 ≤ length v
      → match pcre i.re v ≡ true
      → IsEnd r
      → at_param pcre (node i cs) (v ++ r) ps
        ≡ after_param (node i cs) (v ++ r) (length v) (emplace i.name v ps)
  unfolding at_param
  at_param-value i v r cs ps h k m e =
      let size = find_until_slash-value v r h e in
      rw (at_param, size, take_common v r, take_param-value i v ps k m)
        (ap (λ n. after_param (node i cs) (v ++ r) n (emplace i.name v ps)) size)

after_param-last :
    (i : Info) (c : ℕ) (v : Str) (ps : Params)
    → i.handle ≡ some c
    → 1 ≤ length v
    → after_param (node i nil) v (length v) ps ≡ return (reply (some c) ps false)
unfolding after_param
after_param-last i c v ps e h = ground (arith, e)

after_param-more :
    (i : Info) (n : Node) (v r : Str) (ps : Params)
    → 1 ≤ length v
    → 1 ≤ length r
    → after_param (node i (cons n nil)) (v ++ r) (length v) ps ≡ descend n r ps
unfolding after_param child_at
after_param-more i n v r ps h k =
    let long : ltb (length v) (length (v ++ r)) ≡ true = ground (arith, length-append v r) in
    let some_value : (length v == 0) ≡ false = ground arith in rw (some_value, long, drop_text v r)

Starts-IsEnd : (s r : Str) → Starts b'/' s → IsEnd (s ++ r)
Starts-IsEnd [] r h = absurd h
Starts-IsEnd (x ∷ s) r h = h

IsEnd-text : (s : Str) → Starts b'/' s → IsEnd s
IsEnd-text [] h = tt
IsEnd-text (x ∷ s) h = h

fill-IsEnd : (t : Trail) (vs : List Str) → Starts b'/' (text t) → IsEnd (fill t vs)
fill-IsEnd (end s) vs h = IsEnd-text s h
fill-IsEnd (last s p) [] h = IsEnd-text s h
fill-IsEnd (last s p) (v ∷ vs) h = Starts-IsEnd s v h
fill-IsEnd (more s p t) [] h = IsEnd-text s h
fill-IsEnd (more s p t) (v ∷ vs) h = Starts-IsEnd s (v ++ fill t vs) h
fill-IsEnd (rest s p) [] h = IsEnd-text s h
fill-IsEnd (rest s p) (v ∷ vs) h = Starts-IsEnd s v h

fill-long : (t : Trail) (vs : List Str) → IsTrail t → 1 ≤ length (fill t vs)
fill-long (end s) vs h = h.1
fill-long (last s p) [] h = h.0.1
fill-long (last s p) (v ∷ vs) h = omega (arith, length-append s v, h.0.1)
fill-long (more s p t) [] h = h.0.1
fill-long (more s p t) (v ∷ vs) h = omega (arith, length-append s (v ++ fill t vs), h.0.1)
fill-long (rest s p) [] h = h.0.1
fill-long (rest s p) (v ∷ vs) h = omega (arith, length-append s v, h.0.1)

round-here :
    (pcre : Pcre) (i : Info) (cs : Nodes) (ps : Params)
    → round pcre (node i cs) i.path ps ≡ return (at_end pcre (node i cs) ps)
unfolding round
round-here pcre i cs ps =
    let short : ltb (length i.path) (length i.path) ≡ false = ground arith in
    rw (short, str_eq_self i.path)

-- One round at the first node of a chain.
module _ (pcre : Pcre) (c : ℕ) (i : Info) (s : Str) (p : Param) (ps : Params) where
  round-last :
      (v : Str)
      → p.type ≡ RouterNodeType.param
      → IsValue pcre p v
      → round pcre (chain c i (last s p)) (s ++ v) ps
        ≡ return (reply (some c) (emplace p.name v ps) false)
  round-last v e h =
      let j : Info = record (param_info p) { handle = some c } in
      let n : Node = node j nil in
      let taken = emplace p.name v ps in
      round-wild pcre i s v n ps h.1
      ∙ at_wild-param pcre n v ps e
      ∙ subst (λ w. at_param pcre n w ps ≡ after_param n w (length v) taken) (append-nil v)
          (at_param-value pcre j v [] nil ps h.0 h.1 h.2 tt)
      ∙ after_param-last j c v taken refl h.1

  round-more :
      (t : Trail) (v : Str) (vs : List Str)
      → p.type ≡ RouterNodeType.param
      → IsValue pcre p v
      → Starts b'/' (text t)
      → IsTrail t
      → round pcre (chain c i (more s p t)) (s ++ (v ++ fill t vs)) ps
        ≡ descend (chain c (next_info (pattern_of t)) t) (fill t vs) (emplace p.name v ps)
  round-more t v vs e h b k =
      let r = fill t vs in
      let below_it = chain c (next_info (pattern_of t)) t in
      let n : Node = node (param_info p) (cons below_it nil) in
      round-wild pcre i s (v ++ r) n ps (omega (arith, length-append v r, h.1))
      ∙ at_wild-param pcre n (v ++ r) ps e
      ∙ at_param-value pcre (param_info p) v r (cons below_it nil) ps h.0 h.1 h.2
          (fill-IsEnd t vs b)
      ∙ after_param-more (param_info p) below_it v r (emplace p.name v ps) h.1 (fill-long t vs k)

  round-rest :
      (v : Str)
      → p.type ≡ RouterNodeType.catch_all
      → i.handle ≡ none
      → round pcre (chain c i (rest s p)) (s ++ v) ps
        ≡ return (reply (some c) (emplace p.name v ps) false)
  unfolding at_end empty_wild child_at
  round-rest [] e h =
      let wild : is_catch_all p.type ≡ true = ap is_catch_all e in
      subst
        (λ path.
          round pcre (chain c i (rest s p)) path ps
          ≡ return (reply (some c) (emplace p.name [] ps) false))
        (sym (append-nil s))
        (round-here pcre (with_wild s i) (cons (node (catch_all_info p (some c)) nil) nil) ps
          ∙ ground (arith, h, wild))
  round-rest (x ∷ v) e h =
      let n : Node = node (catch_all_info p (some c)) nil in
      round-wild pcre i s (x ∷ v) n ps (omega arith) ∙ at_wild-rest pcre n (x ∷ v) ps e

module _ (pcre : Pcre) where
  pub forward_loop-chain :
      (fuel c : ℕ) (i : Info) (t : Trail) (vs : List Str) (ps : Params)
      → height (chain c i t) < fuel
      → IsTrail t
      → Fits pcre t vs
      → i.handle ≡ none
      → forward_loop pcre fuel (chain c i t) (fill t vs) ps ≡ reply (some c) (named t vs ps) false
  unfolding forward_loop height at_end
  forward_loop-chain zero c i t vs ps lt h f e = absurd (omega arith)
  forward_loop-chain (suc fuel) c i (end s) [] ps lt h f e =
      rw (forward_loop, round-here pcre (static_end s (some c) i) nil ps)
  forward_loop-chain (suc fuel) c i (end s) (v ∷ vs) ps lt h f e = absurd f
  forward_loop-chain (suc fuel) c i (last s p) [] ps lt h f e = absurd f
  forward_loop-chain (suc fuel) c i (last s p) (v ∷ []) ps lt h f e =
      rw (forward_loop, round-last pcre c i s p ps v h.1 f)
  forward_loop-chain (suc fuel) c i (last s p) (v ∷ (w ∷ vs)) ps lt h f e = absurd f
  forward_loop-chain (suc fuel) c i (more s p t) [] ps lt h f e = absurd f
  forward_loop-chain (suc fuel) c i (more s p t) (v ∷ vs) ps lt h f e =
      rw (forward_loop, round-more pcre c i s p ps t v vs h.1 f.0 h.2 h.3)
        (forward_loop-chain fuel c (next_info (pattern_of t)) t vs (emplace p.name v ps)
          (omega arith) h.3 f.1 refl)
  forward_loop-chain (suc fuel) c i (rest s p) [] ps lt h f e = absurd f
  forward_loop-chain (suc fuel) c i (rest s p) (v ∷ []) ps lt h f e =
      rw (forward_loop, round-rest pcre c i s p ps v h.1 e)
  forward_loop-chain (suc fuel) c i (rest s p) (v ∷ (w ∷ vs)) ps lt h f e = absurd f
