-- ===== src/Utils/Split.antt =====
-- `split` of lib/src/utils.cc.
pub mod Tokens
pub mod Ending
use cppmhd.Prelude.{
  ℕ, zero, suc, ◌+◌, Bool, false, ◌||◌, Option, none, some, List, [], ◌∷◌, ◌++◌, Str, ◌==◌, ltb,
  if◌then◌else◌, length, take, drop,
}
use mathlib.Core.Option

unfoldable pub mem_char : ℕ → Str → Bool
mem_char c [] = false
mem_char c (x ∷ xs) = x == c || mem_char c xs

-- `in.find_first_of(sep)`; `none` is `npos`.
unfoldable pub find_first_of : Str → Str → Option ℕ
find_first_of sep [] = none
find_first_of sep (c ∷ s) = if mem_char c sep then some 0 else Option.map suc (find_first_of sep s)

-- What the loop ends with: `thrown` is the `std::out_of_range` of `substr`, `running` no fuel left.
pub data SplitResult : Type 0 where
  finished : List Str → SplitResult
  thrown : SplitResult
  running : SplitResult

-- `s.substr(pos)`, which throws past the end.
unfoldable pub substr : Str → ℕ → Option Str
substr s pos = if ltb (length s) pos then none else some (drop pos s)

-- One round with `pos` found: the vector and the rest of `tmp`, or the exception.
unfoldable pub split_round : Str → Str → List Str → ℕ → Option (List Str × Str)
unfolding substr
split_round sep tmp out zero = Option.map (λ rest. (out, rest)) (substr tmp (length sep))
split_round sep tmp out (suc p) =
    Option.map (λ rest. (out ++ take (suc p) tmp ∷ [], rest)) (substr tmp (suc p + length sep))

unfoldable pub split_loop : ℕ → Str → Str → List Str → SplitResult
split_loop zero sep tmp out = running
split_loop (suc fuel) sep tmp out = elim (find_first_of sep tmp) [
  | none ↦ finished (if ltb 0 (length tmp) then out ++ tmp ∷ [] else out)
  | some pos ↦ elim (split_round sep tmp out pos) [
    | none ↦ thrown
    | some (out', rest) ↦ split_loop fuel sep rest out'
  ]
]

-- Each round takes at least one character away, so `length + 1` rounds are enough.
unfoldable pub split : Str → List Str → Str → SplitResult
unfolding split_loop split_round find_first_of mem_char
split input out sep = split_loop (suc (length input)) sep input out
