-- ===== src/Router/Handlers/Inserting.antt =====
-- `RawTree::insert` of lib/src/router.cc, and the handlers of its tree.
use cppmhd.Prelude.{
  ℕ, zero, suc, ◌≡◌, refl, inl, inr, Bool, true, false, none, some, List, [], ◌∷◌, Str, ltb, length,
  drop, arith, Bool-cases, Option-cases,
}
use cppmhd.Router.Node.{
  Node, node, nil, cons, info, children, Handler, RouterNodeType, raw_node, child_at, height,
}
use cppmhd.Router.Insert.{
  Param, find_longest_common_prefix, find_wildcard, Insertion, returned, fault, exhausted, below,
  param_info, next_info, before_wild, param_child, insert_child, split_node, split_if, set_handle,
  append_child, with_child, insert_new, Way, to_child, conflict, new_child, choose, insert_loop,
  insert,
}
use cppmhd.Router.Forward.{front}
use cppmhd.Router.Handlers.Owning.{owned, owns, child-owns, set_child-owns, push_child-owns}

module _ (p : ℕ → Bool) where
  abbrev pub insertion_owned : Insertion → Bool
  insertion_owned (returned ok n ps) = owns p n
  insertion_owned _ = true

  below-owned :
      (f : Node → Node) (r : Insertion)
      → ((n : Node) → owns p n ≡ true → owns p (f n) ≡ true)
      → insertion_owned r ≡ true
      → insertion_owned (below f r) ≡ true
  below-owned f (returned ok n ps) k h = k n h
  below-owned f fault k h = refl
  below-owned f exhausted k h = refl

  module _ (ctrl : Handler) (own : owned p ctrl ≡ true) where
    param_child-owned :
        (wild : Param) (rest : Str) (ps : List Param) (more : Node → Str → Insertion)
        → ((n : Node) (path : Str) → owns p n ≡ true → insertion_owned (more n path) ≡ true)
        → insertion_owned (param_child wild rest ctrl ps more) ≡ true
    unfolding owns
    param_child-owned wild rest ps more h = elim (Bool-cases (ltb 1 (length rest))) [
      | inl e ↦
          let n : Node = node (next_info (drop 1 rest)) nil in
          rw e (
            below-owned (λ n. node (param_info wild) (cons n nil)) (more n (drop 1 rest))
              (λ n g. ground (arith, g)) (h n (drop 1 rest) refl))
      | inr e ↦ rw e (ground (arith, own))
    ]

    before_wild-owned :
        (pos : ℕ) (path : Str) (wild : Param) (n : Node)
        → owns p n ≡ true
        → owned p (before_wild pos path wild (info n)).handle ≡ true
    unfolding owns
    before_wild-owned pos path wild (node i ns) h = ground (arith, h)

    insert_child-owned :
        (fuel : ℕ) (n : Node) (path : Str) (ps : List Param)
        → owns p n ≡ true
        → insertion_owned (insert_child fuel n path ctrl ps) ≡ true
    unfolding insert_child owns
    insert_child-owned zero n path ps h = refl
    insert_child-owned (suc fuel) (node i ns) path [] h =
        ground (arith, h, own, Option-cases (find_wildcard path))
    insert_child-owned (suc fuel) (node i ns) path (wild ∷ rest) h =
        elim (Option-cases (find_wildcard path)) [
          | inl e ↦ ground (arith, e, h, own)
          | inr (pos, e) ↦
              let more : Node → Str → Insertion = λ n path'. insert_child fuel n path' ctrl rest in
              let old = before_wild-owned pos path wild (node i ns) h in
              let wrap = λ (n : Node). node (before_wild pos path wild i) (cons n nil) in
              ground (
                arith,
                e,
                h,
                own,
                old,
                below-owned wrap (param_child wild (drop pos path) ctrl rest more)
                    (λ n g. ground (arith, g, old))
                    (param_child-owned wild (drop pos path) rest more
                      (λ n path' g. insert_child-owned fuel n path' rest g)),
              )
        ]

    append_child-owned :
        (n : Node) (ch : ℕ) (c : Node)
        → owns p n ≡ true
        → owns p c ≡ true
        → owns p (append_child n ch c) ≡ true
    unfolding append_child owns
    append_child-owned (node f ns) ch c h g =
        ground (arith, h, push_child-owns p ns c (ground (arith, h)) g)

    insert_new-owned :
        (n : Node) (path : Str) (ps : List Param)
        → owns p n ≡ true
        → insertion_owned (insert_new n path ctrl ps) ≡ true
    unfolding insert_new owns
    insert_new-owned n path ps h =
        let fresh : Node = node (record raw_node { type = RouterNodeType.static_part }) nil in
        ground (
          arith,
          insert_child-owned (suc (length path)) n path ps h,
          below-owned (λ c. append_child n (front path) c)
              (insert_child (suc (length path)) fresh path ctrl ps)
              (λ c g. append_child-owned n (front path) c h g)
              (insert_child-owned (suc (length path)) fresh path ps refl),
        )

    set_handle-owned :
        (ps : List Param) (n : Node)
        → owns p n ≡ true
        → insertion_owned (set_handle ctrl ps n) ≡ true
    unfolding set_handle owns
    set_handle-owned ps (node f ns) h = ground (arith, h, own)

    split_if-owned :
        (i : ℕ) (path : Str) (n : Node) → owns p n ≡ true → owns p (split_if i path n) ≡ true
    unfolding split_node owns
    split_if-owned i path (node f ns) h = ground (arith, h)

    with_child-owned :
        (n : Node) (k : ℕ) (c : Node)
        → owns p n ≡ true
        → owns p c ≡ true
        → owns p (with_child n k c) ≡ true
    unfolding owns
    with_child-owned (node f ns) k c h g =
        ground (arith, h, set_child-owns p k c ns g (ground (arith, h)))

    module _ (fuel : ℕ) (n : Node) (path : Str) (ps : List Param) (h : owns p n ≡ true) where
      way-owned :
          (way : Way)
          → ((c : Node)
              → owns p c ≡ true
              → insertion_owned (insert_loop fuel c path ctrl ps) ≡ true)
          → insertion_owned (elim way [
            | conflict ↦ returned false n ps
            | new_child ↦ insert_new n path ctrl ps
            | to_child k ↦ elim (child_at k (children n)) [
              | none ↦ fault
              | some c ↦ below (λ d. with_child n k d) (insert_loop fuel c path ctrl ps)
            ]
          ])
            ≡ true
      way-owned conflict rest = h
      way-owned new_child rest = insert_new-owned n path ps h
      way-owned (to_child k) rest = elim (Option-cases (child_at k (children n))) [
        | inl e ↦ rw e refl
        | inr (c, e) ↦ rw e (
            below-owned (λ d. with_child n k d) (insert_loop fuel c path ctrl ps)
              (λ d g. with_child-owned n k d h g) (rest c (child-owns p k n c h e)))
      ]

    insert_loop-owned :
        (fuel : ℕ) (n : Node) (path : Str) (ps : List Param)
        → owns p n ≡ true
        → insertion_owned (insert_loop fuel n path ctrl ps) ≡ true
    unfolding insert_loop
    insert_loop-owned zero n path ps h = refl
    insert_loop-owned (suc fuel) n path ps h =
        let i = find_longest_common_prefix path (info n).path in
        let n' = split_if i path n in
        let h' = split_if-owned i path n h in
        elim (Bool-cases (ltb i (length path))) [
          | inl e ↦
              rw (insert_loop, e)
                (way-owned fuel n' (drop i path) ps h' (choose n' (drop i path))
                  (λ c g. insert_loop-owned fuel c (drop i path) ps g))
          | inr e ↦ rw (insert_loop, e) (set_handle-owned ps n' h')
        ]

    pub insert-owned :
        (n : Node) (path : Str) (ps : List Param)
        → owns p n ≡ true
        → insertion_owned (insert n path ctrl ps) ≡ true
    unfolding insert
    insert-owned n path ps h =
        let first = insert_child-owned (suc (length path)) n path ps h in
        let loop = insert_loop-owned (suc (height n)) n path ps h in ground (arith, first, loop)
