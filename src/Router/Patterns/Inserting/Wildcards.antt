-- ===== src/Router/Patterns/Inserting/Wildcards.antt =====
-- `RawTree::insertChild` of lib/src/router.cc at the first wildcard of a pattern.
use cppmhd.Prelude.{
  ℕ, suc, ◌≡◌, ◌≤◌, refl, inl, inr, true, false, none, some, List, [], ◌∷◌, ◌++◌, Str, arith, ltb,
  sym, length, drop, subst,
}
use cppmhd.Router.Node.{Info, Node, node, nil, cons, info, Handler, RouterNodeType}
use cppmhd.Router.Insert.{
  Param, param_char, Insertion, returned, fault, exhausted, below, param_info, next_info,
  before_wild, catch_all_info, param_child, insert_child,
}
use cppmhd.Router.Radix.Prefix.{IsPlain}
use cppmhd.Router.Params.Trails.{with_wild}
use cppmhd.Router.Params.Inserting.{find_wildcard-text, before_wild-text, at_wildcard, drop_text}
use cppmhd.Router.Patterns.Tokens.{Token, lit, param, rest, lits, written, IsPattern}
use cppmhd.Router.Patterns.Goals.{Goal, after, Handled, WildAs, node-IsGood, IsGood, IsWild}
use cppmhd.Router.Patterns.Queues.{Ready, Ready-param, Ready-rest, Allows, IsWildcard}

-- What holds of the node that is returned.
abbrev pub Gives : (Node → Type 0) → Insertion → Type 0
Gives holds (returned ok n ps) = holds n
Gives holds fault = Unit
Gives holds exhausted = Unit

pub Gives-below :
    (a b : Node → Type 0) (f : Node → Node) (r : Insertion)
    → ((n : Node) → a n → b (f n))
    → Gives a r
    → Gives b (below f r)
Gives-below a b f (returned ok n ps) k h = k n h
Gives-below a b f fault k h = tt
Gives-below a b f exhausted k h = tt

pub Gives-weaker :
    (a b : Node → Type 0) (r : Insertion) → ((n : Node) → a n → b n) → Gives a r → Gives b r
Gives-weaker a b (returned ok n ps) k h = k n h
Gives-weaker a b fault k h = tt
Gives-weaker a b exhausted k h = tt

param-IsWild :
    (g : Goal) (i : Info) (n : Node)
    → i.type ≡ RouterNodeType.param
    → i.path ≡ param_char ∷ []
    → i.wildchild ≡ false
    → i.handle ≡ none
    → IsGood (after (param ∷ []) g) n
    → IsWild g (node i (cons n nil))
param-IsWild g i n t p w h k =
    subst (λ u. WildAs u g i (IsGood (after (param ∷ []) g) n × Unit)) (sym t)
      (p, w, subst (Handled (after (param ∷ []) g)) (sym h) tt, (k, tt))

written_long : (x : Token) (q : List Token) → 1 ≤ length (written (x ∷ q))
written_long (lit c) q = omega arith
written_long param q = omega arith
written_long rest q = omega arith

-- The node of a parameter, with what follows it.
param_child-IsWild :
    (g : Goal) (c : ℕ) (p : Param) (q : List Token) (ps : List Param)
    (more : Node → Str → Insertion)
    → p.type ≡ RouterNodeType.param
    → Allows c (after (param ∷ []) g) q
    → Gives (IsGood (after (param ∷ []) g)) (more (node (next_info (written q)) nil) (written q))
    → Gives (IsWild g) (param_child p (param_char ∷ written q) (some c) ps more)
param_child-IsWild g c p [] ps more t a h =
    subst (λ u. WildAs u g (record (param_info p) { handle = some c }) Unit) (sym t)
      (refl, refl, a, tt)
param_child-IsWild g c p (x ∷ q) ps more t a h =
    let long : ltb 1 (suc (length (written (x ∷ q)))) ≡ true = ground (arith, written_long x q) in
    rw long (
      Gives-below (IsGood (after (param ∷ []) g)) (IsWild g) (λ n. node (param_info p) (cons n nil))
        (more (node (next_info (written (x ∷ q))) nil) (written (x ∷ q)))
        (λ n k. param-IsWild g (param_info p) n t refl refl refl k) h)

-- The node itself, with the characters up to the wildcard as its path.
pub wrap-IsGood :
    (g : Goal) (i : Info) (s r : Str) (p : Param) (n : Node)
    → IsPlain s
    → i.path ≡ []
    → i.handle ≡ none
    → IsWild (after (lits s) g) n
    → IsGood g (node (before_wild (length s) (s ++ r) p i) (cons n nil))
      × ((before_wild (length s) (s ++ r) p i).path ≡ s)
wrap-IsGood g i [] r p n plain e h k = (
  node-IsGood g (record i { type = p.type; wildchild = true }) (cons n nil) [] true e refl plain
      (subst (Handled g) (sym h) tt) k,
  e,
)
wrap-IsGood g i (x ∷ s) r p n plain e h k =
    let same = before_wild-text (x ∷ s) r p i (omega arith) in
    subst (λ (u : Info). IsGood g (node u (cons n nil)) × (u.path ≡ x ∷ s)) (sym same)
      (
        node-IsGood g (with_wild (x ∷ s) i) (cons n nil) (x ∷ s) true refl refl plain
            (subst (Handled (after (lits (x ∷ s)) g)) (sym h) tt) k,
        refl,
      )

abbrev pub GoodAt : Goal → Str → Node → Type 0
GoodAt g s n = IsGood g n × ((info n).path ≡ s)

-- Inserting at the nodes below goes well.
abbrev pub Below : ℕ → ℕ → Type 1
Below c fuel =
    (g : Goal) (q : List Token) (ps : List Param)
    → IsPattern q
    → Ready q ps
    → Allows c g q
    → Gives (IsGood g)
        (insert_child fuel (node (next_info (written q)) nil) (written q) (some c) ps)

-- A wildcard without a queued parameter is `front()` of an empty queue.
empty_queue :
    (fuel : ℕ) (i : Info) (s r : Str) (ctrl : Handler)
    → IsPlain s
    → insert_child (suc fuel) (node i nil) (s ++ param_char ∷ r) ctrl [] ≡ fault
unfolding insert_child
empty_queue fuel i s r ctrl plain = rw (insert_child, find_wildcard-text s r plain) refl

-- At a wildcard behind the text, where `put` makes the child a part of the node.
module _ (c fuel : ℕ) (g : Goal) (i : Info) (s : Str) (holds : Node → Type 0) (plain : IsPlain s)
    (put : (p : Param) (r : Str) (n : Node)
      → IsWild g n
      → holds (node (before_wild (length s) (s ++ r) p i) (cons n nil))) where
  put_param :
      (q : List Token) (p : Param) (ps : List Param)
      → p.type ≡ RouterNodeType.param
      → Allows c (after (param ∷ []) g) q
      → Gives
          (IsGood (after (param ∷ []) g))
          (insert_child fuel (node (next_info (written q)) nil) (written q) (some c) ps)
      → Gives holds
          (insert_child (suc fuel) (node i nil) (s ++ param_char ∷ written q) (some c) (p ∷ ps))
  put_param q p ps t a below_good =
      let r = param_char ∷ written q in
      let more : Node → Str → Insertion = λ n path. insert_child fuel n path (some c) ps in
      subst (Gives holds)
        (sym (at_wildcard fuel i s (written q) (some c) p ps RouterNodeType.param plain t))
        (Gives-below (IsWild g) holds (λ n. node (before_wild (length s) (s ++ r) p i) (cons n nil))
          (param_child p (drop (length s) (s ++ r)) (some c) ps more) (put p r)
          (subst (λ u. Gives (IsWild g) (param_child p u (some c) ps more)) (sym (drop_text s r))
            (param_child-IsWild g c p q ps more t a below_good)))

  put_rest :
      (p : Param) (ps : List Param)
      → p.type ≡ RouterNodeType.catch_all
      → g (rest ∷ []) c
      → Gives holds (insert_child (suc fuel) (node i nil) (s ++ param_char ∷ []) (some c) (p ∷ ps))
  put_rest p ps t a =
      subst (Gives holds)
        (sym (at_wildcard fuel i s [] (some c) p ps RouterNodeType.catch_all plain t))
        (put p (param_char ∷ []) (node (catch_all_info p (some c)) nil)
          (subst (λ u. WildAs u g (catch_all_info p (some c)) Unit) (sym t) a))

  pub wild-Gives :
      (r : List Token) (ps : List Param)
      → Below c fuel
      → IsWildcard r
      → IsPattern r
      → Ready r ps
      → Allows c g r
      → Gives holds (insert_child (suc fuel) (node i nil) (s ++ written r) (some c) ps)
  wild-Gives [] ps ih wild pat ready a = absurd wild
  wild-Gives (lit x ∷ q) ps ih wild pat ready a = absurd wild
  wild-Gives (param ∷ q) [] ih wild pat ready a =
      subst (Gives holds) (sym (empty_queue fuel i s (written q) (some c) plain)) tt
  wild-Gives (param ∷ q) (p ∷ ps) ih wild pat ready a =
      let (t, ready') = Ready-param q p ps ready in
      put_param q p ps t a (ih (after (param ∷ []) g) q ps pat.1 ready' a)
  wild-Gives (rest ∷ q) [] ih wild pat ready a =
      subst (Gives holds) (sym (empty_queue fuel i s (written q) (some c) plain)) tt
  wild-Gives (rest ∷ q) (p ∷ ps) ih wild pat ready a =
      subst
        (λ q.
          Gives holds
            (insert_child (suc fuel) (node i nil) (s ++ param_char ∷ written q) (some c) (p ∷ ps)))
        (sym pat)
        (elim (Ready-rest q p ps ready) [
          | inl t ↦ put_rest p ps t a.0
          | inr t ↦ put_param [] p ps t a.1 (ih (after (param ∷ []) g) [] ps tt tt a.1)
        ])
