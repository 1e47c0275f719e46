-- ===== src/Router/Patterns/Walking.antt =====
-- The rounds of `Router::forward` of lib/src/router.cc behind the path of a node.
use cppmhd.Prelude.{
  Bool, ℕ, zero, suc, ◌≡◌, ◌⊎◌, ◌≤◌, ◌&&◌, refl, inl, inr, true, false, none, some, is_some, List,
  [], ◌∷◌, ◌++◌, Str, length, take, drop, arith, Bool-cases, Option-cases, sym, subst,
  take-append-drop, ◌==◌, ltb,
}
use cppmhd.Utils.Regex.{Pcre}
use cppmhd.Router.Node.{
  Node, Handler, RouterNodeType, node, info, children, child_at, index_of, indice,
}
use cppmhd.Router.Forward.{
  Params, Outcome, answered, fault, exhausted, Round, return, descend, after_param, take_param,
  at_param, at_catch_all, at_wild, inside, find_until_slash, front, emplace,
}
use cppmhd.Router.Radix.Lookup.{Starts}
use cppmhd.Router.Patterns.Tokens.{Token, param, rest, NoSlash, Instance}
use cppmhd.Router.Patterns.Goals.{
  Goal, after, Handled, WildAs, IsGood, AreGood, IsWild, child_at-IsGood, child_at-IsWild,
}

-- A handler that is found stands at a pattern that the path fits.
abbrev pub FoundBy : Goal → Str → Handler → Type 0
FoundBy g path none = Unit
FoundBy g path (some c) = (q : List Token) × g q c × Instance q path

abbrev pub Found : Goal → Str → Outcome → Type 0
Found g path (answered a) = FoundBy g path a.handle
Found g path fault = Unit
Found g path exhausted = Unit

-- A round that goes on behind a part of the pattern.
abbrev pub Goes : Goal → Str → Round → Type 0
Goes g path (return o) = Found g path o
Goes g path (descend n path' ps) =
    (pre : List Token) × IsGood (after pre g) n
    × ((q : List Token) → Instance q path' → Instance (pre ++ q) path)

pub FoundBy-Handled :
    (g : Goal) (pre : List Token) (path : Str) (h : Handler)
    → Handled (after pre g) h
    → Instance (pre ++ []) path
    → FoundBy g path h
FoundBy-Handled g pre path none h i = tt
FoundBy-Handled g pre path (some c) h i = (pre ++ [], h, i)

-- The segment up to the slash, and what follows.
take-NoSlash : (s : Str) → NoSlash (take (find_until_slash s) s)
unfolding find_until_slash
take-NoSlash [] = tt
take-NoSlash (x ∷ s) = elim (Bool-cases (x == b'/')) [
  | inl e ↦ rw e tt
  | inr e ↦ rw e (e, take-NoSlash s)
]

slash_next : (s : Str) → (find_until_slash s == 0) ≡ true → (s ≡ []) ⊎ Starts b'/' s
unfolding find_until_slash
slash_next [] h = inl refl
slash_next (x ∷ s) h = inr (ground (arith, h))

Instance-param :
    (s : Str) (size : ℕ) (q : List Token)
    → NoSlash (take size s)
    → Instance q (drop size s)
    → Instance (param ∷ q) s
Instance-param s size q n i = inl (take size s, drop size s, sym (take-append-drop size s), n, i)

drop_all : (n : ℕ) (s : Str) → length s ≤ n → drop n s ≡ []
drop_all zero [] h = refl
drop_all (suc n) [] h = refl
drop_all zero (x ∷ s) h = absurd (omega (arith, h))
drop_all (suc n) (x ∷ s) h = drop_all n s (omega (arith, h))

at_catch_all-Goes :
    (g : Goal) (path : Str) (asserts : Bool) (h : Handler) (ps : Params)
    → FoundBy g path h
    → Goes g path (at_catch_all asserts h ps)
at_catch_all-Goes g path true none ps f = tt
at_catch_all-Goes g path false none ps f = tt
at_catch_all-Goes g path asserts (some c) ps f = f

module _ (g : Goal) where
  after_param-Goes :
      (n : Node) (s : Str) (ps : Params)
      → Handled (after (param ∷ []) g) (info n).handle
      → AreGood false (after (param ∷ []) g) (children n)
      → Goes g s (after_param n s (find_until_slash s) ps)
  unfolding after_param
  after_param-Goes n s ps h a =
      let size = find_until_slash s in
      let last : Instance (param ∷ []) s → FoundBy g s (info n).handle =
        FoundBy-Handled g (param ∷ []) s (info n).handle h in
      elim (Bool-cases (size == 0 && is_some (info n).handle)) [
        | inl e ↦
            let zero_size : (size == 0) ≡ true = ground (arith, e) in
            rw e (
              last (elim (slash_next s zero_size) [
                | inl f ↦ inl ([], s, refl, tt, subst (Instance []) (sym f) tt)
                | inr f ↦ inr (refl, f)
              ]))
        | inr e ↦ elim (Bool-cases (ltb size (length s))) [
          | inl f ↦ elim (Option-cases (child_at 0 (children n))) [
            | inl c ↦ rw (e, f, c) tt
            | inr (c, k) ↦
                rw (e, f, k)
                  (
                    param ∷ [],
                    child_at-IsGood (after (param ∷ []) g) 0 (children n) c a k,
                    λ q i. Instance-param s size q (take-NoSlash s) i,
                  )
          ]
          | inr f ↦
              let none_left : drop size s ≡ [] = drop_all size s (ground (arith, f)) in
              let whole = last (
                Instance-param s size [] (take-NoSlash s)
                  (subst (Instance []) (sym none_left) tt)) in
              elim (Bool-cases (is_some (info n).handle)) [
                | inl k ↦ rw (e, f, k) whole
                | inr k ↦ rw (e, f, k) tt
              ]
        ]
      ]

  module _ (pcre : Pcre) where
    at_param-Goes :
        (n : Node) (s : Str) (ps : Params)
        → Handled (after (param ∷ []) g) (info n).handle
        → AreGood false (after (param ∷ []) g) (children n)
        → Goes g s (at_param pcre n s ps)
    unfolding at_param
    at_param-Goes n s ps h a =
        elim (Option-cases (take_param pcre (info n) (take (find_until_slash s) s) ps)) [
          | inl e ↦ rw (at_param, e) tt
          | inr (ps', e) ↦ rw (at_param, e) (after_param-Goes n s ps' h a)
        ]

    at_wild-Goes : (n : Node) (s : Str) (ps : Params) → IsWild g n → Goes g s (at_wild pcre n s ps)
    unfolding at_wild
    at_wild-Goes (node i ns) s ps h = go i.type h
      where
        go :
            (t : RouterNodeType)
            → WildAs t g i (AreGood false (after (param ∷ []) g) ns)
            → Goes g s (elim t [
              | RouterNodeType.param ↦ at_param pcre (node i ns) s ps
              | RouterNodeType.catch_all ↦ at_catch_all pcre.asserts i.handle (emplace i.name s ps)
              | _ ↦ descend (node i ns) s ps
            ])
        go RouterNodeType.param (_, _, a, b) = at_param-Goes (node i ns) s ps a b
        go RouterNodeType.catch_all a =
            at_catch_all-Goes g s pcre.asserts i.handle (emplace i.name s ps)
              (FoundBy-Handled g (rest ∷ []) s i.handle a refl)
        go RouterNodeType.unknown a = absurd a
        go RouterNodeType.root a = absurd a
        go RouterNodeType.static_part a = absurd a

    -- Behind the node's own path.
    pub inside-Goes :
        (n : Node) (s : Str) (ps : Params)
        → AreGood (info n).wildchild g (children n)
        → Goes g s (inside pcre n s ps)
    unfolding inside indice
    inside-Goes n s ps a = elim (Bool-cases (info n).wildchild) [
      | inl w ↦ elim (Option-cases (child_at 0 (children n))) [
        | inl e ↦ rw (inside, w, e) tt
        | inr (c, e) ↦
            rw (inside, w, e)
              (at_wild-Goes c s ps
                (child_at-IsWild g (children n) c (subst (λ b. AreGood b g (children n)) w a) e))
      ]
      | inr w ↦
          let a' : AreGood false g (children n) = subst (λ b. AreGood b g (children n)) w a in
          elim (Option-cases (index_of (front s) (info n).indices)) [
            | inl e ↦ rw (inside, w, e) tt
            | inr (k, e) ↦ elim (Option-cases (child_at k (children n))) [
              | inl f ↦ rw (inside, w, e, f) tt
              | inr (c, f) ↦
                  rw (inside, w, e, f) ([], child_at-IsGood g k (children n) c a' f, λ q i. i)
            ]
          ]
    ]
