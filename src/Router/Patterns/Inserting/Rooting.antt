-- ===== src/Router/Patterns/Inserting/Rooting.antt =====
-- `RawTree::insert` of lib/src/router.cc on a root, which may be empty.
use cppmhd.Prelude.{
  ℕ, suc, ◌≡◌, ◌⊎◌, refl, inl, inr, true, false, some, List, [], ◌∷◌, ◌++◌, Str, ap, arith, sym,
  ◌∙◌, length, subst, str_eq,
}
use cppmhd.Router.Node.{Node, info, raw_node, height}
use cppmhd.Router.Insert.{
  Param, Insertion, returned, fault, exhausted, insert_child, insert_loop, insert,
}
use cppmhd.Router.Radix.Lookup.{Starts}
use cppmhd.Router.Radix.Prefix.{parting, common-Starts}
use cppmhd.Router.Table.Roots.{fresh_root}
use cppmhd.Router.Patterns.Tokens.{Token, lit, param, rest, lits, written, IsPattern}
use cppmhd.Router.Patterns.Goals.{Goal, IsGood}
use cppmhd.Router.Patterns.Queues.{
  Ready, Ready-lits, Allows, Allows-lits, IsWildcard, opening, written-lits,
}
use cppmhd.Router.Patterns.Inserting.Wildcards.{Gives, Gives-weaker, GoodAt}
use cppmhd.Router.Patterns.Inserting.Fresh.{fresh-Gives}
use cppmhd.Router.Patterns.Inserting.Rounds.{insert_loop-GoodAt}

-- A root before and after the first route.
abbrev pub IsGrown : Goal → Node → Type 0
IsGrown g n = (n ≡ fresh_root) ⊎ (IsGood g n × Starts b'/' (info n).path)

GoodAt-IsGrown : (g : Goal) (s : Str) (n : Node) → Starts b'/' s → GoodAt g s n → IsGrown g n
GoodAt-IsGrown g s n starts good = inr (good.0, subst (Starts b'/') (sym good.1) starts)

-- The flag of the first insertion is true whatever happens.
abbrev say_true : Insertion → Insertion
say_true r = elim r [
  | returned ok n ps ↦ returned true n ps
  | fault ↦ fault
  | exhausted ↦ exhausted
]

Gives-say_true : (a : Node → Type 0) (r : Insertion) → Gives a r → Gives a (say_true r)
Gives-say_true a (returned ok n ps) h = h
Gives-say_true a fault h = h
Gives-say_true a exhausted h = h

module _ (c : ℕ) (g : Goal) (q : List Token) (ps : List Param) (starts : Starts b'/' (written q))
    (pat : IsPattern q) (ready : Ready q ps) (a : Allows c g q) where
  -- What stands before the first wildcard begins with the slash.
  front_Starts :
      (s : Str) (r : List Token) → (r ≡ []) ⊎ IsWildcard r → q ≡ lits s ++ r → Starts b'/' s
  front_Starts [] r (inl e) whole =
      absurd (subst (λ (q : List Token). Starts b'/' (written q)) (whole ∙ e) starts)
  front_Starts [] r (inr wild) whole =
      colon r wild (subst (λ (q : List Token). Starts b'/' (written q)) whole starts)
    where
      colon : (r : List Token) → IsWildcard r → Starts b'/' (written r) → ⊥
      colon [] w h = w
      colon (lit x ∷ r) w h = w
      colon (param ∷ r) w h = omega (arith, h)
      colon (rest ∷ r) w h = omega (arith, h)
  front_Starts (x ∷ s) r wild whole =
      subst (λ (q : List Token). Starts b'/' (written q)) whole starts

  first-IsGrown :
      Gives (IsGrown g) (insert_child (suc (length (written q))) fresh_root (written q) (some c) ps)
  first-IsGrown =
      let o = opening q pat in
      let parts = subst (λ q. Ready q ps × Allows c g q) o.whole (ready, a) in
      subst
        (λ u. Gives (IsGrown g) (insert_child (suc (length (written q))) fresh_root u (some c) ps))
        (sym (ap written o.whole ∙ written-lits o.front o.back))
        (Gives-weaker (GoodAt g o.front) (IsGrown g)
          (insert_child (suc (length (written q))) fresh_root (o.front ++ written o.back) (some c)
            ps)
          (λ n k. GoodAt-IsGrown g o.front n (front_Starts o.front o.back o.wild o.whole) k)
          (fresh-Gives c (suc (length (written q))) g raw_node o.front o.back ps o.plain o.pattern
            o.wild refl refl refl (Ready-lits o.front o.back ps parts.0)
            (Allows-lits c g o.front o.back parts.1)))

  pub insert-IsGrown :
      (n : Node) → IsGrown g n → Gives (IsGrown g) (insert n (written q) (some c) ps)
  unfolding insert str_eq
  insert-IsGrown n (inl e) =
      subst (λ n. Gives (IsGrown g) (insert n (written q) (some c) ps)) (sym e)
        (Gives-say_true (IsGrown g)
          (insert_child (suc (length (written q))) fresh_root (written q) (some c) ps)
          first-IsGrown)
  insert-IsGrown n (inr (good, slash)) =
      let filled : str_eq (info n).path [] ≡ false = not_empty (info n).path slash in
      let p = parting (written q) (info n).path in
      rw (insert, filled)
        (Gives-weaker (GoodAt g p.common) (IsGrown g)
          (insert_loop (suc (height n)) n (written q) (some c) ps)
          (λ m k.
            GoodAt-IsGrown g p.common m
              (common-Starts b'/' (written q) (info n).path p starts slash) k)
          (insert_loop-GoodAt c (height n) g n q ps good pat ready a))
    where
      not_empty : (s : Str) → Starts b'/' s → str_eq s [] ≡ false
      not_empty [] h = absurd h
      not_empty (x ∷ s) h = refl
