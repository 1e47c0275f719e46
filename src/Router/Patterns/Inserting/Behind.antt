-- ===== src/Router/Patterns/Inserting/Behind.antt =====
-- A round of the loop of `RawTree::insert` of lib/src/router.cc, behind what the path and a node share.
use cppmhd.Prelude.{
  ℕ, suc, ◌≡◌, refl, inl, inr, Bool, true, false, some, is_some, List, [], ◌∷◌, ◌++◌, Str, ap, ap₂,
  arith, ltb, ◌∙◌, length, length-append, drop, drop-append, subst, Option-cases, Bool-cases, ◌==◌,
}
use cppmhd.Router.Node.{Node, node, info}
use cppmhd.Router.Insert.{
  Param, find_wildcard, find_longest_common_prefix, param_char, Insertion, insert_loop, split_if,
  choose, set_handle,
}
use cppmhd.Router.Radix.Prefix.{IsPlain, IsPlain-append}
use cppmhd.Router.Patterns.Tokens.{Token, lit, param, rest, lits, written, IsPattern}
use cppmhd.Router.Patterns.Goals.{Goal}
use cppmhd.Router.Patterns.Queues.{Ready, Allows}
use cppmhd.Router.Patterns.Inserting.Wildcards.{Gives}
use cppmhd.Router.Patterns.Inserting.Growing.{IsOpen, Fills, IsOpen-Fills}
use cppmhd.Router.Patterns.Inserting.Looping.{LoopStatic, LoopWild, take_way, take_way-Fills}

-- A round where the path `l` is left at the node `m`.
abbrev by_left : ℕ → ℕ → List Param → Bool → Node → Str → Insertion
by_left fuel c ps more m l = elim more [
  | false ↦ set_handle (some c) ps m
  | true ↦ take_way fuel m l c ps (choose m l)
]

abbrev pub round_at : ℕ → Node → Str → ℕ → List Param → Insertion
round_at fuel m l c ps = by_left fuel c ps (ltb 0 (length l)) m l

pub insert_loop-round_at :
    (fuel c : ℕ) (n m : Node) (path a l : Str) (ps : List Param)
    → find_longest_common_prefix path (info n).path ≡ length a
    → path ≡ a ++ l
    → split_if (length a) path n ≡ m
    → insert_loop (suc fuel) n path (some c) ps ≡ round_at fuel m l c ps
unfolding insert_loop
insert_loop-round_at fuel c n m path a l ps at e cut =
    let left : ltb (length a) (length path) ≡ ltb 0 (length l) =
      ground (arith, ap length e, length-append a l) in
    let same : drop (length a) path ≡ l = ap (drop (length a)) e ∙ drop-append a l in
    ap (λ s. by_left fuel c ps (ltb s (length path)) (split_if s path n) (drop s path)) at
    ∙ ap₂ (λ b m. by_left fuel c ps b m (drop (length a) path)) left cut
    ∙ ap (by_left fuel c ps (ltb 0 (length l)) m) same

written-empty : (q : List Token) → ltb 0 (length (written q)) ≡ false → q ≡ []
written-empty [] h = refl
written-empty (lit c ∷ q) h = absurd (ground (arith, h))
written-empty (param ∷ q) h = absurd (ground (arith, h))
written-empty (rest ∷ q) h = absurd (ground (arith, h))

set_handle-Fills :
    (g : Goal) (c : ℕ) (q : List Token) (ps : List Param) (n : Node)
    → IsOpen g n
    → g [] c
    → Gives (Fills g (info n) q) (set_handle (some c) ps n)
unfolding set_handle
set_handle-Fills g c q ps (node f ns) h a = elim (Bool-cases (is_some f.handle)) [
  | inl e ↦ rw e (IsOpen-Fills g q (node f ns) h)
  | inr e ↦ rw e (refl, inr (refl, refl), (a, h.1))
]

pub round_at-Fills :
    (c fuel : ℕ) (g : Goal) (m : Node) (q : List Token) (ps : List Param)
    → LoopStatic c fuel
    → LoopWild c fuel
    → IsOpen g m
    → IsPattern q
    → Ready q ps
    → Allows c g q
    → Gives (Fills g (info m) q) (round_at fuel m (written q) c ps)
round_at-Fills c fuel g m q ps static_loop wild_loop h pat ready a =
    elim (Bool-cases (ltb 0 (length (written q)))) [
      | inl e ↦
          rw (round_at, e)
            (take_way-Fills c fuel static_loop wild_loop g m q ps h pat ready a (ground (arith, e)))
      | inr e ↦
          rw (round_at, e)
            (set_handle-Fills g c q ps m h (subst (Allows c g) (written-empty q e) a))
    ]

-- A pattern whose text begins with characters.
pub record Cut (a l : Str) (q : List Token) : Type 0 where
  pub back : List Token
  pub whole : q ≡ lits a ++ back
  pub same : written back ≡ l
  pub pattern : IsPattern back

IsPlain-front : (x : ℕ) (a : Str) → IsPlain (x ∷ a) → ((x == param_char) ≡ false) × IsPlain a
unfolding find_wildcard
IsPlain-front x a h = (ground arith, ground (arith, Option-cases (find_wildcard a)))

pub written-Cut :
    (a l : Str) (q : List Token) → IsPlain a → IsPattern q → written q ≡ a ++ l → Cut a l q
written-Cut [] l q plain pat e = record { back = q; whole = refl; same = e; pattern = pat }
written-Cut (x ∷ a) l [] plain pat e = cc
written-Cut (x ∷ a) l (lit y ∷ q) plain pat e =
    let (same_head, same_tail) : (y ≡ x) × (written q ≡ a ++ l) = (cc, cc) in
    let k = written-Cut a l q (IsPlain-front x a plain).1 pat.1 same_tail in
    record {
      back = k.back;
      whole = ap₂ (λ c r. lit c ∷ r) same_head k.whole;
      same = k.same;
      pattern = k.pattern;
    }
written-Cut (x ∷ a) l (param ∷ q) plain pat e =
    let head : param_char ≡ x = cc in absurd (ground (arith, (IsPlain-front x a plain).0, head))
written-Cut (x ∷ a) l (rest ∷ q) plain pat e =
    let head : param_char ≡ x = cc in absurd (ground (arith, (IsPlain-front x a plain).0, head))

pub IsPlain-begin : (a r : Str) → IsPlain (a ++ r) → IsPlain a
unfolding find_wildcard
IsPlain-begin [] r h = refl
IsPlain-begin (x ∷ a) r h =
    let ih = IsPlain-begin a r (IsPlain-append (x ∷ []) (a ++ r) h) in
    ground (arith, ih, h, Option-cases (find_wildcard a), Option-cases (find_wildcard (a ++ r)))

pub no_prefix : (s : Str) → find_longest_common_prefix s [] ≡ 0
unfolding find_longest_common_prefix
no_prefix [] = refl
no_prefix (x ∷ s) = refl
