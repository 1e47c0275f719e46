-- ===== src/Router/Patterns/Forwarding.antt =====
-- `Router::forward` of lib/src/router.cc, and the patterns of the handlers that it finds.
use cppmhd.Prelude.{
  ℕ, zero, suc, ◌≡◌, refl, inl, inr, Bool, true, false, not, none, some, is_some, List, [], ◌∷◌,
  ◌++◌, Str, length, arith, Bool-cases, Option-cases, str_eq, str_eq_sound, sym, ◌∙◌, subst, ltb,
}
use mathlib.Core.List.{append-nil, append_assoc}
use cppmhd.Utils.Regex.{Pcre}
use cppmhd.Router.Node.{Node, Handler, RouterNodeType, node, info, children, child_at, indice}
use cppmhd.Router.Forward.{
  Params, Outcome, answered, fault, exhausted, Round, return, descend, inside, empty_wild, at_slash,
  at_end, round, forward_loop, is_prefix, Answer,
}
use cppmhd.Router.Radix.Strip.{strip, is_prefix-strip, strip-drop, strip_sound}
use cppmhd.Router.Patterns.Tokens.{Token, param, rest, lits, Instance, Instance-lits}
use cppmhd.Router.Patterns.Goals.{
  Goal, after, after-after, Handled, WildAs, IsGood, AreGood, IsWild, child_at-IsWild,
}
use cppmhd.Router.Patterns.Walking.{FoundBy, Found, Goes, FoundBy-Handled, inside-Goes}

-- No handler is in the answer.
abbrev handle_less : Outcome → Bool
handle_less (answered a) = not (is_some a.handle)
handle_less _ = true

handle_less-Found : (g : Goal) (path : Str) (o : Outcome) → handle_less o ≡ true → Found g path o
handle_less-Found g path (answered a) h = elim (Option-cases a.handle) [
  | inl e ↦ rw e tt
  | inr (c, e) ↦ absurd (ground (arith, h, e))
]
handle_less-Found g path fault h = tt
handle_less-Found g path exhausted h = tt

at_slash-none : (pcre : Pcre) (n : Node) (ps : Params) → handle_less (at_slash pcre n ps) ≡ true
unfolding at_slash
at_slash-none pcre n ps = elim (Option-cases (indice n b'/')) [
  | inl e ↦ ground (arith, e)
  | inr (c, e) ↦ ground (arith, e, Option-cases (child_at 0 (children c)))
]

empty_wild-FoundBy :
    (g : Goal) (pcre : Pcre) (c : Node) (ps : Params) (a : Answer)
    → IsWild g c
    → empty_wild pcre c ps ≡ some a
    → FoundBy g [] a.handle
unfolding empty_wild
empty_wild-FoundBy g pcre (node i ns) ps a h e = go i.type h (ground (arith, e))
  where
    go :
        (t : RouterNodeType)
        → WildAs t g i (AreGood false (after (param ∷ []) g) ns)
        → i.handle ≡ a.handle
        → FoundBy g [] a.handle
    go RouterNodeType.param (_, _, b, _) f =
        FoundBy-Handled g (param ∷ []) [] a.handle (subst (Handled (after (param ∷ []) g)) f b)
          (inl ([], [], refl, tt, tt))
    go RouterNodeType.catch_all b f =
        FoundBy-Handled g (rest ∷ []) [] a.handle (subst (Handled (after (rest ∷ []) g)) f b) refl
    go RouterNodeType.unknown b f = absurd b
    go RouterNodeType.root b f = absurd b
    go RouterNodeType.static_part b f = absurd b

-- What holds of the path behind a text holds of the whole.
FoundBy-behind :
    (g : Goal) (s r : Str) (h : Handler) → FoundBy (after (lits s) g) r h → FoundBy g (s ++ r) h
FoundBy-behind g s r none f = tt
FoundBy-behind g s r (some c) (q, f, i) = (lits s ++ q, f, Instance-lits s q r i)

Goes-behind : (g : Goal) (s r : Str) (o : Round) → Goes (after (lits s) g) r o → Goes g (s ++ r) o
Goes-behind g s r (return (answered a)) f = FoundBy-behind g s r a.handle f
Goes-behind g s r (return fault) f = tt
Goes-behind g s r (return exhausted) f = tt
Goes-behind g s r (descend n path ps) (pre, h, k) = (
  lits s ++ pre,
  subst (λ (f : Goal). IsGood f n) (after-after g (lits s) pre) h,
  λ q i.
      subst (λ p. Instance p (s ++ r)) (sym (append_assoc (lits s) pre q))
        (Instance-lits s (pre ++ q) r (k q i)),
)

at_end-Found :
    (g : Goal) (pcre : Pcre) (n : Node) (path : Str) (ps : Params)
    → Handled g (info n).handle
    → AreGood (info n).wildchild g (children n)
    → Found g [] (at_end pcre n ps)
unfolding at_end
at_end-Found g pcre n path ps h a =
    let less = at_slash-none pcre n ps in
    elim (Bool-cases (is_some (info n).handle)) [
      | inl e ↦ rw (at_end, e) (FoundBy-Handled g [] [] (info n).handle h tt)
      | inr e ↦ elim (Bool-cases (info n).wildchild) [
        | inl w ↦ elim (Option-cases (child_at 0 (children n))) [
          | inl f ↦ rw (at_end, e, w, f) tt
          | inr (c, f) ↦
              let wild =
                child_at-IsWild g (children n) c (subst (λ b. AreGood b g (children n)) w a) f in
              elim (Option-cases (empty_wild pcre c ps)) [
                | inl k ↦
                    handle_less-Found g [] (at_end pcre n ps) (ground (arith, e, w, f, k, less))
                | inr (b, k) ↦ rw (at_end, e, w, f, k) (empty_wild-FoundBy g pcre c ps b wild k)
              ]
        ]
        | inr w ↦ handle_less-Found g [] (at_end pcre n ps) (ground (arith, e, w, less))
      ]
    ]

round-Goes :
    (g : Goal) (pcre : Pcre) (n : Node) (path : Str) (ps : Params)
    → IsGood g n
    → Goes g path (round pcre n path ps)
unfolding round
round-Goes g pcre (node i ns) path ps (_, h, a) =
    elim (Bool-cases (ltb (length i.path) (length path))) [
      | inl e ↦ elim (Option-cases (strip i.path path)) [
        | inl f ↦
            let no_prefix : is_prefix path i.path ≡ false =
              is_prefix-strip i.path path (ground (arith, e)) ∙ rw f refl in
            rw (round, e, no_prefix) tt
        | inr (r, f) ↦
            let prefix : is_prefix path i.path ≡ true =
              is_prefix-strip i.path path (ground (arith, e)) ∙ rw f refl in
            let same = strip_sound i.path path r f in
            rw (round, e, prefix, strip-drop i.path path r f)
              (subst (λ u. Goes g u (inside pcre (node i ns) r ps)) (sym same)
                (Goes-behind g i.path r (inside pcre (node i ns) r ps)
                  (inside-Goes (after (lits i.path) g) pcre (node i ns) r ps a)))
      ]
      | inr e ↦ elim (Bool-cases (str_eq i.path path)) [
        | inl f ↦
            let same : i.path ++ [] ≡ path = append-nil i.path ∙ str_eq_sound i.path path f in
            rw (round, e, f)
              (subst (λ u. Goes g u (return (at_end pcre (node i ns) ps))) same
                (Goes-behind g i.path [] (return (at_end pcre (node i ns) ps))
                  (at_end-Found (after (lits i.path) g) pcre (node i ns) path ps h a)))
        | inr f ↦ rw (round, e, f) tt
      ]
    ]

Found-through :
    (g : Goal) (pre : List Token) (path path' : Str) (o : Outcome)
    → ((q : List Token) → Instance q path' → Instance (pre ++ q) path)
    → Found (after pre g) path' o
    → Found g path o
Found-through g pre path path' (answered a) k f = through a.handle f
  where
    through : (h : Handler) → FoundBy (after pre g) path' h → FoundBy g path h
    through none f = tt
    through (some c) (q, f, i) = (pre ++ q, f, k q i)
Found-through g pre path path' fault k f = tt
Found-through g pre path path' exhausted k f = tt

-- A handler that is found stands at a pattern that the path fits.
pub forward_loop-Found :
    (g : Goal) (pcre : Pcre) (fuel : ℕ) (n : Node) (path : Str) (ps : Params)
    → IsGood g n
    → Found g path (forward_loop pcre fuel n path ps)
unfolding forward_loop
forward_loop-Found g pcre zero n path ps h = tt
forward_loop-Found g pcre (suc fuel) n path ps h =
    go (round pcre n path ps) (round-Goes g pcre n path ps h)
      (λ pre n' path' ps' h'. forward_loop-Found (after pre g) pcre fuel n' path' ps' h')
  where
    go :
        (r : Round)
        → Goes g path r
        → ((pre : List Token) (n' : Node) (path' : Str) (ps' : Params)
            → IsGood (after pre g) n'
            → Found (after pre g) path' (forward_loop pcre fuel n' path' ps'))
        → Found g path
            (elim r [ return o ↦ o | descend n' path' ps' ↦ forward_loop pcre fuel n' path' ps' ])
    go (return o) f k = f
    go (descend n' path' ps') (pre, f, t) k =
        Found-through g pre path path' (forward_loop pcre fuel n' path' ps') t
          (k pre n' path' ps' f)
