-- ===== src/Router/Ending/Inserting.antt =====
-- The rounds of `RawTree::insert` and `insertChild` of lib/src/router.cc.
use cppmhd.Prelude.{
  ℕ, zero, suc, ◌<◌, ◌≡◌, ◌≢◌, refl, inl, inr, Bool, true, false, none, some, List, [], ◌∷◌, Str,
  ◌==◌, ltb, length, take, drop, length-drop, arith, Bool-cases, Option-cases,
}
use cppmhd.Router.Node.{
  Node, node, nil, cons, info, children, Handler, RouterNodeType, raw_node, child_at, index_of,
  height,
}
use cppmhd.Router.Insert.{
  Param, find_longest_common_prefix, find_wildcard, Insertion, returned, fault, exhausted, below,
  param_info, next_info, before_wild, param_child, insert_child, split_node, split_if, set_handle,
  append_child, with_child, insert_new, Way, to_child, conflict, new_child, choose, insert_loop,
  insert,
}
use cppmhd.Router.Forward.{front}
use cppmhd.Router.Ending.Heights.{child_at-height}

-- The fuel was enough.
abbrev pub ends : Insertion → Bool
ends exhausted = false
ends _ = true

ends-below : (f : Node → Node) (r : Insertion) → ends (below f r) ≡ ends r
ends-below f (returned ok n ps) = refl
ends-below f fault = refl
ends-below f exhausted = refl

param_child-ends :
    (wild : Param) (rest : Str) (ctrl : Handler) (ps : List Param) (more : Node → Str → Insertion)
    → ((n : Node) (path : Str) → length path < length rest → ends (more n path) ≡ true)
    → ends (param_child wild rest ctrl ps more) ≡ true
param_child-ends wild rest ctrl ps more h = elim (Bool-cases (ltb 1 (length rest))) [
  | inl e ↦
      let n : Node = node (next_info (drop 1 rest)) nil in
      ground (
        arith,
        e,
        ends-below (λ n. node (param_info wild) (cons n nil)) (more n (drop 1 rest)),
        h n (drop 1 rest),
        length-drop 1 rest,
      )
  | inr e ↦ rw e
]

-- Every round but the last takes a character off the path.
insert_child-ends :
    (fuel : ℕ) (n : Node) (path : Str) (ctrl : Handler) (ps : List Param)
    → length path < fuel
    → ends (insert_child fuel n path ctrl ps) ≡ true
unfolding insert_child
insert_child-ends zero n path ctrl ps lt = absurd (omega arith)
insert_child-ends (suc fuel) (node i ns) path ctrl [] lt =
    ground (arith, Option-cases (find_wildcard path))
insert_child-ends (suc fuel) (node i ns) path ctrl (wild ∷ rest) lt =
    elim (Option-cases (find_wildcard path)) [
      | inl e ↦ rw (insert_child, e)
      | inr (pos, e) ↦
          let more : Node → Str → Insertion = λ n path'. insert_child fuel n path' ctrl rest in
          ground (
            arith,
            e,
            ends-below (λ n. node (before_wild pos path wild i) (cons n nil))
                (param_child wild (drop pos path) ctrl rest more),
            param_child-ends wild (drop pos path) ctrl rest more (λ n path' h.
                insert_child-ends fuel n path' ctrl rest (omega (arith, length-drop pos path))),
          )
    ]

insert_new-ends :
    (n : Node) (path : Str) (ctrl : Handler) (ps : List Param)
    → ends (insert_new n path ctrl ps) ≡ true
unfolding insert_new
insert_new-ends n path ctrl ps =
    let fresh : Node = node (record raw_node { type = RouterNodeType.static_part }) nil in
    ground (
      arith,
      insert_child-ends (suc (length path)) n path ctrl ps (omega arith),
      insert_child-ends (suc (length path)) fresh path ctrl ps (omega arith),
      ends-below (λ c. append_child n (front path) c)
          (insert_child (suc (length path)) fresh path ctrl ps),
    )

set_handle-ends : (ctrl : Handler) (ps : List Param) (n : Node) → ends (set_handle ctrl ps n) ≡ true
unfolding set_handle
set_handle-ends ctrl ps (node f ns) = ground (arith, Option-cases f.handle)

-- Behind the longest common prefix the texts differ.
index_of-differs :
    (first second : Str)
    → ltb (find_longest_common_prefix first second) (length first) ≡ true
    → ltb (find_longest_common_prefix first second) (length second) ≡ true
    → index_of
        (front (drop (find_longest_common_prefix first second) first))
        (take 1 (drop (find_longest_common_prefix first second) second))
      ≡ none
unfolding find_longest_common_prefix index_of
index_of-differs [] second h k = cc
index_of-differs (x ∷ first) [] h k = cc
index_of-differs (x ∷ first) (y ∷ second) h k = elim (Bool-cases (x == y)) [
  | inl e ↦ rw e (index_of-differs first second (ground (arith, e)) (ground (arith, e)))
  | inr e ↦ ground (arith, e)
]

-- A node that is split has one child, whose index is no character of the path that goes on.
choose-split_node :
    (path : Str) (n : Node)
    → ltb (find_longest_common_prefix path (info n).path) (length path) ≡ true
    → ltb (find_longest_common_prefix path (info n).path) (length (info n).path) ≡ true
    → choose
        (split_node (find_longest_common_prefix path (info n).path) path n)
        (drop (find_longest_common_prefix path (info n).path) path)
      ≡ new_child
unfolding choose split_node
choose-split_node path (node f ns) h k = rw (index_of-differs path f.path h k)

-- Where the path goes on below, it is a child that the node had before.
choose-lower :
    (path : Str) (n c : Node) (k : ℕ)
    → ltb (find_longest_common_prefix path (info n).path) (length path) ≡ true
    → choose
        (split_if (find_longest_common_prefix path (info n).path) path n)
        (drop (find_longest_common_prefix path (info n).path) path)
      ≡ to_child k
    → child_at k (children (split_if (find_longest_common_prefix path (info n).path) path n))
      ≡ some c
    → height c < height n
choose-lower path n c k lt e h =
    elim (Bool-cases (ltb (find_longest_common_prefix path (info n).path) (length (info n).path))) [
      | inl f ↦ let new = choose-split_node path n lt f in let other = rw f at e in cc (new, other)
      | inr f ↦ child_at-height k n c (rw f at h)
    ]

-- What one round leaves to do, by the way that is chosen.
module _ (fuel : ℕ) (n : Node) (path : Str) (ctrl : Handler) (ps : List Param) where
  way-ends :
      (way : Way)
      → ((k : ℕ) (c : Node)
          → way ≡ to_child k
          → child_at k (children n) ≡ some c
          → ends (insert_loop fuel c path ctrl ps) ≡ true)
      → ends (elim way [
        | conflict ↦ returned false n ps
        | new_child ↦ insert_new n path ctrl ps
        | to_child k ↦ elim (child_at k (children n)) [
          | none ↦ fault
          | some c ↦ below (λ d. with_child n k d) (insert_loop fuel c path ctrl ps)
        ]
      ])
        ≡ true
  way-ends conflict rest = refl
  way-ends new_child rest = insert_new-ends n path ctrl ps
  way-ends (to_child k) rest = elim (Option-cases (child_at k (children n))) [
    | inl e ↦ rw e
    | inr (c, e) ↦
        rw (e, ends-below (λ d. with_child n k d) (insert_loop fuel c path ctrl ps))
          (rest k c refl e)
  ]

insert_loop-ends :
    (fuel : ℕ) (n : Node) (path : Str) (ctrl : Handler) (ps : List Param)
    → height n < fuel
    → ends (insert_loop fuel n path ctrl ps) ≡ true
unfolding insert_loop
insert_loop-ends zero n path ctrl ps lt = absurd (omega arith)
insert_loop-ends (suc fuel) n path ctrl ps lt =
    let i = find_longest_common_prefix path (info n).path in
    let n' = split_if i path n in
    elim (Bool-cases (ltb i (length path))) [
      | inl e ↦
          rw (insert_loop, e)
            (way-ends fuel n' (drop i path) ctrl ps (choose n' (drop i path)) (λ k c w at.
              insert_loop-ends fuel c (drop i path) ctrl ps
                (omega (arith, choose-lower path n c k e w at))))
      | inr e ↦ rw (insert_loop, e) (set_handle-ends ctrl ps n')
    ]

-- Inserting a route ends, whatever the tree, the path and the queued parameters are.
pub insert-ends :
    (n : Node) (path : Str) (ctrl : Handler) (ps : List Param) → insert n path ctrl ps ≢ exhausted
unfolding insert
insert-ends n path ctrl ps e =
    let first = insert_child-ends (suc (length path)) n path ctrl ps (omega arith) in
    let loop = insert_loop-ends (suc (height n)) n path ctrl ps (omega arith) in
    ground (arith, first, loop)
