-- ===== src/Router/Patterns/Inserting/Looping.antt =====
-- The loop of `RawTree::insert` of lib/src/router.cc, on trees with parameters.
use cppmhd.Prelude.{
  ℕ, ◌≡◌, ◌≤◌, ◌⊎◌, refl, inl, inr, true, false, none, some, List, [], ◌∷◌, Str, arith, sym, length,
  subst, Option-cases, Bool-cases,
}
use cppmhd.Router.Node.{
  Node, node, nil, cons, info, children, RouterNodeType, is_catch_all, child_at, set_child,
}
use cppmhd.Router.Forward.{is_prefix}
use cppmhd.Router.Insert.{
  Param, param_char, Insertion, returned, fault, below, insert_new, insert_loop, fits_wild,
  with_child, Way, to_child, conflict, new_child, choose,
}
use cppmhd.Router.Radix.Strip.{is_prefix-strip, strip}
use cppmhd.Router.Patterns.Tokens.{Token, lit, param, rest, written, IsPattern}
use cppmhd.Router.Patterns.Goals.{
  Goal, after, WildAs, IsGood, AreGood, IsWild, child_at-IsGood, child_at-IsWild, set_child-AreGood,
}
use cppmhd.Router.Patterns.Queues.{Ready, Allows, IsWildcard}
use cppmhd.Router.Patterns.Inserting.Wildcards.{Gives, Gives-below}
use cppmhd.Router.Patterns.Inserting.Growing.{IsOpen, Fills, IsOpen-Fills, insert_new-Fills}

-- On a good node, and on the node of a parameter at a wildcard.
abbrev pub LoopStatic : ℕ → ℕ → Type 1
LoopStatic c fuel =
    (g : Goal) (n : Node) (q : List Token) (ps : List Param)
    → IsGood g n
    → IsPattern q
    → Ready q ps
    → Allows c g q
    → Gives (IsGood g) (insert_loop fuel n (written q) (some c) ps)

abbrev pub LoopWild : ℕ → ℕ → Type 1
LoopWild c fuel =
    (g : Goal) (n : Node) (q : List Token) (ps : List Param)
    → IsWild g n
    → (info n).type ≡ RouterNodeType.param
    → IsWildcard q
    → IsPattern q
    → Ready q ps
    → Allows c g q
    → Gives (IsWild g) (insert_loop fuel n (written q) (some c) ps)

-- A wildcard child that takes the path is a parameter, and the path goes on with a wildcard.
fits_parameter-IsWildcard :
    (g : Goal) (n : Node) (q : List Token)
    → IsWild g n
    → fits_wild (written q) n ≡ true
    → 1 ≤ length (written q)
    → IsPattern q
    → ((info n).type ≡ RouterNodeType.param) × IsWildcard q
unfolding fits_wild strip
fits_parameter-IsWildcard g (node i ns) q h fits long pat = go i.type h refl
  where
    colon :
        (q : List Token)
        → is_prefix (written q) (param_char ∷ []) ≡ true
        → 1 ≤ length (written q)
        → IsPattern q
        → IsWildcard q
    colon [] e long pat = absurd (omega (arith, long))
    colon (lit x ∷ q) e long pat =
        let k = is_prefix-strip (param_char ∷ []) (x ∷ written q) (omega arith) in
        absurd (ground (arith, e, k, pat.0))
    colon (param ∷ q) e long pat = tt
    colon (rest ∷ q) e long pat = tt

    go :
        (t : RouterNodeType)
        → WildAs t g i (AreGood false (after (param ∷ []) g) ns)
        → i.type ≡ t
        → (i.type ≡ RouterNodeType.param) × IsWildcard q
    go RouterNodeType.param (p, _, _, _) e =
        (e, colon q (subst (λ u. is_prefix (written q) u ≡ true) p (ground (arith, fits))) long pat)
    go RouterNodeType.catch_all _ e =
        let no : is_catch_all i.type ≡ true = rw e refl in absurd (ground (arith, fits, no))
    go RouterNodeType.unknown a e = absurd a
    go RouterNodeType.root a e = absurd a
    go RouterNodeType.static_part a e = absurd a

-- What the loop does with the way that it has chosen.
abbrev pub take_way : ℕ → Node → Str → ℕ → List Param → Way → Insertion
take_way fuel n path c ps way = elim way [
  | conflict ↦ returned false n ps
  | new_child ↦ insert_new n path (some c) ps
  | to_child k ↦ elim (child_at k (children n)) [
    | none ↦ fault
    | some m ↦ below (λ d. with_child n k d) (insert_loop fuel m path (some c) ps)
  ]
]

module _ (c fuel : ℕ) (static_loop : LoopStatic c fuel) (wild_loop : LoopWild c fuel) (g : Goal)
    (n : Node) (q : List Token) (ps : List Param) (open_node : IsOpen g n) (pat : IsPattern q)
    (ready : Ready q ps) (a : Allows c g q) (long : 1 ≤ length (written q)) where
  with_child-Fills :
      (k : ℕ) (d : Node)
      → (info n).wildchild ≡ false
      → IsGood g d
      → Fills g (info n) q (with_child n k d)
  with_child-Fills k d w good = keep n open_node w
    where
      keep :
          (n : Node)
          → IsOpen g n
          → (info n).wildchild ≡ false
          → Fills g (info n) q (with_child n k d)
      keep (node i ns) o w =
          let old = subst (λ b. AreGood b g ns) w o.1 in
          (
            refl,
            inr (refl, refl),
            (
              o.0,
              subst (λ b. AreGood b g (set_child k d ns)) (sym w)
                  (set_child-AreGood g k d ns good old),
            ),
          )

  with_wild-Fills :
      (m d : Node)
      → (info n).wildchild ≡ true
      → child_at 0 (children n) ≡ some m
      → IsWild g d
      → Fills g (info n) q (with_child n 0 d)
  unfolding child_at set_child
  with_wild-Fills m d w e wild = keep n open_node w e
    where
      keep :
          (n : Node)
          → IsOpen g n
          → (info n).wildchild ≡ true
          → child_at 0 (children n) ≡ some m
          → Fills g (info n) q (with_child n 0 d)
      keep (node i nil) o w e = absurd (ground (arith, e))
      keep (node i (cons m' nil)) o w e =
          (refl, inr (refl, refl), (o.0, subst (λ b. AreGood b g (cons d nil)) (sym w) wild))
      keep (node i (cons m' (cons m'' ns))) o w e =
          absurd (subst (λ b. AreGood b g (cons m' (cons m'' ns))) w o.1)

  way_down :
      (k : ℕ)
      → ((m : Node)
          → child_at k (children n) ≡ some m
          → Gives
              (Fills g (info n) q)
              (below (λ d. with_child n k d) (insert_loop fuel m (written q) (some c) ps)))
      → Gives (Fills g (info n) q) (take_way fuel n (written q) c ps (to_child k))
  way_down k h = elim (Option-cases (child_at k (children n))) [
    | inl e ↦ rw (take_way, Gives, e) tt
    | inr (m, e) ↦ rw (take_way, e) (h m e)
  ]

  -- Without a wildcard child, any way is right.
  take_way-static :
      (way : Way)
      → (info n).wildchild ≡ false
      → Gives (Fills g (info n) q) (take_way fuel n (written q) c ps way)
  take_way-static conflict w = IsOpen-Fills g q n open_node
  take_way-static new_child w = insert_new-Fills c g n q ps open_node w pat ready a long
  take_way-static (to_child k) w = way_down k λ m e.
      let goods = subst (λ b. AreGood b g (children n)) w open_node.1 in
      Gives-below (IsGood g) (Fills g (info n) q) (λ d. with_child n k d)
        (insert_loop fuel m (written q) (some c) ps) (λ d good. with_child-Fills k d w good)
        (static_loop g m q ps (child_at-IsGood g k (children n) m goods e) pat ready a)

  choose-wild :
      (info n).wildchild ≡ true
      → (choose n (written q) ≡ conflict)
        ⊎ ((choose n (written q) ≡ to_child 0)
            × ((m : Node) → child_at 0 (children n) ≡ some m → fits_wild (written q) m ≡ true))
  unfolding choose
  choose-wild w = elim (Option-cases (child_at 0 (children n))) [
    | inl e ↦ inr (rw (w, e) refl, λ m f. absurd (ground (arith, e, f)))
    | inr (m, e) ↦ elim (Bool-cases (fits_wild (written q) m)) [
      | inl f ↦ inr (
        rw (w, e, f) refl,
        λ m' e'.
            let same : m ≡ m' = cc (e, e') in subst (λ u. fits_wild (written q) u ≡ true) same f,
      )
      | inr f ↦ inl (rw (w, e, f) refl)
    ]
  ]

  take_way-wild :
      (info n).wildchild ≡ true
      → Gives (Fills g (info n) q) (take_way fuel n (written q) c ps (choose n (written q)))
  take_way-wild w = elim (choose-wild w) [
    | inl e ↦ rw e (IsOpen-Fills g q n open_node)
    | inr (e, fits) ↦
        subst (λ way. Gives (Fills g (info n) q) (take_way fuel n (written q) c ps way)) (sym e)
          (way_down 0 λ m f.
            let wilds = subst (λ b. AreGood b g (children n)) w open_node.1 in
            let wild = child_at-IsWild g (children n) m wilds f in
            let (t, starts) = fits_parameter-IsWildcard g m q wild (fits m f) long pat in
            Gives-below (IsWild g) (Fills g (info n) q) (λ d. with_child n 0 d)
              (insert_loop fuel m (written q) (some c) ps)
              (λ d wild'. with_wild-Fills m d w f wild')
              (wild_loop g m q ps wild t starts pat ready a))
  ]

  pub take_way-Fills :
      Gives (Fills g (info n) q) (take_way fuel n (written q) c ps (choose n (written q)))
  take_way-Fills = elim (Bool-cases (info n).wildchild) [
    | inl w ↦ take_way-wild w
    | inr w ↦ take_way-static (choose n (written q)) w
  ]
