-- ===== src/Router/Radix/Strip.antt =====
-- Cutting a prefix off, and how the comparisons of lib/src/router.cc agree with it.
use cppmhd.Prelude.{
  ◌+◌, ◌≤◌, ◌≡◌, refl, Option, none, some, [], ◌∷◌, ◌++◌, Str, str_eq, mem_equal, ◌==◌,
  if◌then◌else◌, is_some, length, drop, arith,
}
use mathlib.Core.Option
use cppmhd.Router.Forward.{is_prefix}

-- What follows the prefix.
unfoldable pub strip : Str → Str → Option Str
strip [] s = some s
strip (x ∷ p) [] = none
strip (x ∷ p) (y ∷ s) = if x == y then strip p s else none

pub strip-append : (p s : Str) → strip p (p ++ s) ≡ some s
unfolding strip
strip-append [] s = refl
strip-append (x ∷ p) s = ground (arith, strip-append p s)

pub strip_sound : (p s r : Str) → strip p s ≡ some r → s ≡ p ++ r
unfolding strip
strip_sound [] s r h = ground arith
strip_sound (x ∷ p) [] r h = cc
strip_sound (x ∷ p) (y ∷ s) r h = ground (arith, strip_sound p s r)

pub strip_twice : (p q s : Str) → strip (p ++ q) s ≡ Option.bind (strip p s) (strip q)
unfolding strip Option.bind
strip_twice [] q s = refl
strip_twice (x ∷ p) q [] = refl
strip_twice (x ∷ p) q (y ∷ s) = ground (arith, strip_twice p q s)

pub length-strip : (p s r : Str) → strip p s ≡ some r → length s ≡ length p + length r
unfolding strip
length-strip [] s r h = ground arith
length-strip (x ∷ p) [] r h = cc
length-strip (x ∷ p) (y ∷ s) r h = ground (arith, length-strip p s r)

pub strip-drop : (p s r : Str) → strip p s ≡ some r → drop (length p) s ≡ r
unfolding strip
strip-drop [] s r h = ground arith
strip-drop (x ∷ p) [] r h = cc
strip-drop (x ∷ p) (y ∷ s) r h = ground (arith, strip-drop p s r)

-- `memcmp` over the prefix's length decides whether it can be cut off, if the text is long enough.
mem_equal-strip :
    (p s : Str) (a b : Str)
    → length p ≤ length s
    → mem_equal (s ++ a) (p ++ b) (length p) ≡ is_some (strip p s)
unfolding mem_equal strip
mem_equal-strip [] s a b h = refl
mem_equal-strip (x ∷ p) [] a b h = absurd (omega arith)
mem_equal-strip (x ∷ p) (y ∷ s) a b h = ground (arith, mem_equal-strip p s a b)

pub is_prefix-strip : (p s : Str) → length p ≤ length s → is_prefix s p ≡ is_some (strip p s)
unfolding is_prefix
is_prefix-strip p s h = mem_equal-strip p s (0 ∷ []) (0 ∷ []) h

-- Two texts of one length: the rest is empty if they are equal, and otherwise there is none.
pub strip_short :
    (p s : Str) → length s ≤ length p → strip p s ≡ (if str_eq p s then some [] else none)
unfolding strip str_eq
strip_short [] [] h = refl
strip_short [] (y ∷ s) h = absurd (omega arith)
strip_short (x ∷ p) [] h = refl
strip_short (x ∷ p) (y ∷ s) h = ground (arith, strip_short p s)
