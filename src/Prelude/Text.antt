-- ===== src/Prelude/Text.antt =====
-- `std::string` and C strings as lists of bytes.
use Prim.Native.Nat.{ℕ, zero, suc, ◌+◌, ◌/◌, ◌%◌}
use Prim.Native.Char.{code}
use Prim.Native.String.{String}
use mathlib.Core.Path.{◌≡◌, refl}
use mathlib.Core.Logic.{◌↔◌}
use mathlib.Core.Bool.{Bool, true, false, ◌&&◌}
use mathlib.Core.List.{List, [], ◌∷◌, ◌++◌}
use native.Mathlib.Omega.{arith}
use cppmhd.Prelude.Tests.{◌==◌, ltb, if◌then◌else◌, ==_self}

abbrev pub Str : Type 0
Str = List ℕ

-- The bytes of an ASCII literal.
abbrev pub codes : String → Str
codes String.[] = []
codes (String.◌∷◌ c s) = code c ∷ codes s

unfoldable pub str_eq : Str → Str → Bool
str_eq [] [] = true
str_eq [] (y ∷ ys) = false
str_eq (x ∷ xs) [] = false
str_eq (x ∷ xs) (y ∷ ys) = x == y && str_eq xs ys

pub str_eq_sound : (s t : Str) → str_eq s t ≡ true → s ≡ t
unfolding str_eq
str_eq_sound [] [] h = refl
str_eq_sound [] (y ∷ ys) h = cc
str_eq_sound (x ∷ xs) [] h = cc
str_eq_sound (x ∷ xs) (y ∷ ys) h = ground (arith, str_eq_sound xs ys)

pub str_eq_self : (s : Str) → str_eq s s ≡ true
unfolding str_eq
str_eq_self [] = refl
str_eq_self (x ∷ xs) = ground (arith, ==_self x, str_eq_self xs)

pub str_eq_iff : (s t : Str) → (str_eq s t ≡ true) ↔ (s ≡ t)
str_eq_iff s t = (str_eq_sound s t, λ e. rw e (str_eq_self t))

-- The array behind `c_str()`, with its terminator.
abbrev pub c_str : Str → Str
c_str s = s ++ 0 ∷ []

-- `memcmp(a, b, n) == 0`; a read past either array finds no equality.
unfoldable pub mem_equal : Str → Str → ℕ → Bool
mem_equal xs ys zero = true
mem_equal [] ys (suc n) = false
mem_equal (x ∷ xs) [] (suc n) = false
mem_equal (x ∷ xs) (y ∷ ys) (suc n) = x == y && mem_equal xs ys n

-- `strncmp(a, b, n) == 0` on C strings: the comparison also ends at a common terminator.
unfoldable pub strn_equal : Str → Str → ℕ → Bool
strn_equal xs ys zero = true
strn_equal [] [] (suc n) = true
strn_equal [] (y ∷ ys) (suc n) = false
strn_equal (x ∷ xs) [] (suc n) = false
strn_equal (x ∷ xs) (y ∷ ys) (suc n) = x == y && strn_equal xs ys n

-- How often a byte occurs.
unfoldable pub count : ℕ → Str → ℕ
count c [] = 0
count c (x ∷ xs) = (if x == c then 1 else 0) + count c xs

pub count-append : (c : ℕ) (xs ys : Str) → count c (xs ++ ys) ≡ count c xs + count c ys
unfolding count
count-append c [] ys = omega arith
count-append c (x ∷ xs) ys = omega (arith, count-append c xs ys)

decimal_from : ℕ → ℕ → Str → Str
decimal_from zero n acc = acc
decimal_from (suc fuel) n acc =
    let rest = decimal_from fuel (n / 10) ((b'0' + n % 10) ∷ acc) in
    if ltb n 10 then (b'0' + n) ∷ acc else rest

-- `FORMAT("{}", i)` of a number.
unfoldable pub decimal : ℕ → Str
unfolding decimal_from
decimal n = decimal_from (suc n) n []
