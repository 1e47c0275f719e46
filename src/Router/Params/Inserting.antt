-- ===== src/Router/Params/Inserting.antt =====
-- `RawTree::insertChild` of lib/src/router.cc makes a chain of nodes of a route.
use cppmhd.Prelude.{
  ℕ, zero, suc, ◌≤◌, ◌<◌, ◌≡◌, refl, ap, ◌∙◌, Bool, true, some, List, [], ◌∷◌, ◌++◌, Str, ltb,
  if◌then◌else◌, length, length-append, drop, arith, Option-cases,
}
use cppmhd.Router.Node.{Info, node, nil, cons, RouterNodeType, Handler, children_count}
use cppmhd.Router.Insert.{
  Param, param_char, find_wildcard, returned, fault, below, next_info, catch_all_info, before_wild,
  param_child, insert_child,
}
use cppmhd.Router.Radix.Prefix.{IsPlain, take_common}
use cppmhd.Router.Params.Trails.{
  Trail, end, last, more, rest, pattern_of, queue, with_wild, chain, IsTrail,
}

-- The first wildcard comes behind the text.
pub find_wildcard-text :
    (s r : Str) → IsPlain s → find_wildcard (s ++ param_char ∷ r) ≡ some (length s)
unfolding find_wildcard
find_wildcard-text [] r h = refl
find_wildcard-text (x ∷ s) r h =
    ground (arith, find_wildcard-text s r, Option-cases (find_wildcard s))

pub drop_text : (s r : Str) → drop (length s) (s ++ r) ≡ r
drop_text [] r = refl
drop_text (x ∷ s) r = drop_text s r

pub before_wild-text :
    (s r : Str) (p : Param) (i : Info)
    → 1 ≤ length s
    → before_wild (length s) (s ++ r) p i ≡ with_wild s i
before_wild-text s r p i h = rw (take_common s r) (
    let e : ltb 0 (length s) ≡ true = ground arith in
    ap (λ (b : Bool). if b then with_wild s i else record i { type = p.type; wildchild = true }) e)

-- A round at a wildcard, by its type.
pub at_wildcard :
    (fuel : ℕ) (i : Info) (s r : Str) (ctrl : Handler) (p : Param) (ps : List Param)
    (t : RouterNodeType)
    → IsPlain s
    → p.type ≡ t
    → insert_child (suc fuel) (node i nil) (s ++ param_char ∷ r) ctrl (p ∷ ps) ≡ elim t [
      | RouterNodeType.param ↦
          below
            (λ n. node (before_wild (length s) (s ++ param_char ∷ r) p i) (cons n nil))
            (param_child p
              (drop (length s) (s ++ param_char ∷ r))
              ctrl
              ps
              (λ n path. insert_child fuel n path ctrl ps))
      | RouterNodeType.catch_all ↦
          returned true
            (node
              (before_wild (length s) (s ++ param_char ∷ r) p i)
              (cons (node (catch_all_info p ctrl) nil) nil))
            ps
      | _ ↦ fault
    ]
unfolding insert_child children_count
at_wildcard fuel i s r ctrl p ps t h e =
    rw (insert_child, find_wildcard-text s r h)
      (ap
        (λ (u : RouterNodeType). elim u [
          | RouterNodeType.param ↦
              below (λ n. node (before_wild (length s) (s ++ param_char ∷ r) p i) (cons n nil))
                (param_child p (drop (length s) (s ++ param_char ∷ r)) ctrl ps
                  (λ n path. insert_child fuel n path ctrl ps))
          | RouterNodeType.catch_all ↦
              returned true
                (node (before_wild (length s) (s ++ param_char ∷ r) p i)
                  (cons (node (catch_all_info p ctrl) nil) nil))
                ps
          | _ ↦ fault
        ])
        e)

module _ (fuel : ℕ) (i : Info) (s r : Str) (ctrl : Handler) (p : Param) (ps : List Param)
    (plain : IsPlain s) (long : 1 ≤ length s) where
  insert_child-param :
      p.type ≡ RouterNodeType.param
      → insert_child (suc fuel) (node i nil) (s ++ param_char ∷ r) ctrl (p ∷ ps)
        ≡ below
            (λ n. node (with_wild s i) (cons n nil))
            (param_child p (param_char ∷ r) ctrl ps (λ n path. insert_child fuel n path ctrl ps))
  insert_child-param e =
      at_wildcard fuel i s r ctrl p ps RouterNodeType.param plain e
      ∙ rw (before_wild-text s (param_char ∷ r) p i long, drop_text s (param_char ∷ r))

  insert_child-rest :
      p.type ≡ RouterNodeType.catch_all
      → insert_child (suc fuel) (node i nil) (s ++ param_char ∷ r) ctrl (p ∷ ps)
        ≡ returned true (node (with_wild s i) (cons (node (catch_all_info p ctrl) nil) nil)) ps
  insert_child-rest e =
      at_wildcard fuel i s r ctrl p ps RouterNodeType.catch_all plain e
      ∙ rw (before_wild-text s (param_char ∷ r) p i long)

pub insert_child-chain :
    (c fuel : ℕ) (i : Info) (t : Trail) (ps : List Param)
    → length (pattern_of t) < fuel
    → IsTrail t
    → insert_child fuel (node i nil) (pattern_of t) (some c) (queue t ++ ps)
      ≡ returned true (chain c i t) ps
unfolding insert_child
insert_child-chain c zero i t ps lt v = absurd (omega arith)
insert_child-chain c (suc fuel) i (end s) ps lt v = rw (insert_child, v.0)
insert_child-chain c (suc fuel) i (last s p) ps lt v =
    insert_child-param fuel i s [] (some c) p ps v.0.0 v.0.1 v.1
insert_child-chain c (suc fuel) i (more s p t) ps lt v =
    let path = pattern_of t in
    let ih =
      insert_child-chain c fuel (next_info path) t ps
        (omega (arith, length-append s (param_char ∷ path))) v.3 in
    let long : ltb 1 (length (param_char ∷ path)) ≡ true = ground arith in
    insert_child-param fuel i s path (some c) p (queue t ++ ps) v.0.0 v.0.1 v.1 ∙ rw (long, ih)
insert_child-chain c (suc fuel) i (rest s p) ps lt v =
    insert_child-rest fuel i s [] (some c) p ps v.0.0 v.0.1 v.1
