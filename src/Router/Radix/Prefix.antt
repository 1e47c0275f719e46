-- ===== src/Router/Radix/Prefix.antt =====
-- The longest common prefix, and paths without wildcards.
use cppmhd.Prelude.{
  ℕ, ◌≡◌, refl, ◌≢◌, inl, inr, true, false, none, some, [], ◌∷◌, ◌++◌, Str, str_eq, ==_iff, ◌==◌,
  length, take, arith, ap, Bool-cases, Option-cases, sym, ◌∙◌,
}
use cppmhd.Router.Insert.{find_longest_common_prefix, find_wildcard, param_char}
use cppmhd.Router.Radix.Strip.{strip}
use cppmhd.Router.Radix.Lookup.{Starts}

-- Two rests that do not go on alike.
abbrev pub Differ : Str → Str → Type 0
Differ [] t = Unit
Differ (c ∷ r) [] = Unit
Differ (c ∷ r) (d ∷ t) = c ≢ d

-- Two texts share `common`, and then part.
pub record Parting (first second : Str) : Type 0 where
  pub common : Str
  pub left : Str
  pub right : Str
  pub first_eq : first ≡ common ++ left
  pub second_eq : second ≡ common ++ right
  pub at : find_longest_common_prefix first second ≡ length common
  pub differ : Differ left right

Parting-cons :
    (x y : ℕ) (first second : Str) → x ≡ y → Parting first second → Parting (x ∷ first) (y ∷ second)
unfolding find_longest_common_prefix
Parting-cons x y first second e p = record {
  common = x ∷ p.common;
  left = p.left;
  right = p.right;
  first_eq = ap (◌∷◌ x) p.first_eq;
  second_eq = rw (← e) (ap (◌∷◌ x) p.second_eq);
  at = ground (arith, p.at);
  differ = p.differ;
}

pub parting : (first second : Str) → Parting first second
unfolding find_longest_common_prefix
parting [] second = record {
  common = [];
  left = [];
  right = second;
  first_eq = refl;
  second_eq = refl;
  at = refl;
  differ = tt;
}
parting (x ∷ first) [] = record {
  common = [];
  left = x ∷ first;
  right = [];
  first_eq = refl;
  second_eq = refl;
  at = refl;
  differ = tt;
}
parting (x ∷ first) (y ∷ second) = elim (Bool-cases (x == y)) [
  | inl e ↦ Parting-cons x y first second ((==_iff x y).0 e) (parting first second)
  | inr e ↦ record {
    common = [];
    left = x ∷ first;
    right = y ∷ second;
    first_eq = refl;
    second_eq = refl;
    at = rw e;
    differ = ground arith;
  }
]

-- Where both begin with the same character, so does what they share.
pub common-Starts :
    (c : ℕ) (first second : Str) (p : Parting first second)
    → Starts c first
    → Starts c second
    → Starts c p.common
common-Starts c first second p h k =
    begin p.common p.left p.right (rw p.first_eq at h) (rw p.second_eq at k) p.differ
  where
    begin : (a l r : Str) → Starts c (a ++ l) → Starts c (a ++ r) → Differ l r → Starts c a
    begin [] [] r h k d = absurd h
    begin [] (x ∷ l) [] h k d = absurd k
    begin [] (x ∷ l) (y ∷ r) h k d = absurd (d (h ∙ sym k))
    begin (x ∷ a) l r h k d = h

pub take_common : (a r : Str) → take (length a) (a ++ r) ≡ a
take_common [] r = refl
take_common (x ∷ a) r = ap (◌∷◌ x) (take_common a r)

-- Equality with a text that has a known beginning.
pub str_eq-append :
    (a r q : Str) → str_eq (a ++ r) q ≡ elim (strip a q) [ none ↦ false | some q' ↦ str_eq r q' ]
unfolding strip str_eq
str_eq-append [] r q = refl
str_eq-append (x ∷ a) r [] = refl
str_eq-append (x ∷ a) r (y ∷ q) = ground (arith, str_eq-append a r q)

pub str_eq-strip :
    (p q : Str)
    → str_eq p q ≡ elim (strip p q) [ none ↦ false | some [] ↦ true | some (c ∷ s) ↦ false ]
unfolding strip str_eq
str_eq-strip [] [] = refl
str_eq-strip [] (y ∷ q) = refl
str_eq-strip (x ∷ p) [] = refl
str_eq-strip (x ∷ p) (y ∷ q) = ground (arith, str_eq-strip p q)

-- A path without a wildcard.
abbrev pub IsPlain : Str → Type 0
IsPlain path = find_wildcard path ≡ none

pub IsPlain-append : (a r : Str) → IsPlain (a ++ r) → IsPlain r
unfolding find_wildcard
IsPlain-append [] r h = h
IsPlain-append (x ∷ a) r h =
    IsPlain-append a r (ground (arith, Option-cases (find_wildcard (a ++ r))))

pub IsPlain-front : (c : ℕ) (s : Str) → IsPlain (c ∷ s) → (c == param_char) ≡ false
unfolding find_wildcard
IsPlain-front c s h = ground arith
