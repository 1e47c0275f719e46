-- ===== src/Utils/Split/Ending.antt =====
-- The rounds of `split` of lib/src/utils.cc, with any separators.
use cppmhd.Prelude.{
  ℕ, zero, suc, ◌+◌, ◌≤◌, ◌<◌, ◌≡◌, ◌≢◌, refl, sym, ◌∙◌, inl, inr, none, some, List, [], ◌∷◌, Str,
  length, length-drop, arith, Option-cases,
}
use cppmhd.Utils.Split.{mem_char, find_first_of, running, substr, split_round, split_loop, split}

find_first_of-empty : (s : Str) → find_first_of [] s ≡ none
unfolding find_first_of mem_char
find_first_of-empty [] = refl
find_first_of-empty (c ∷ s) = rw (find_first_of-empty s)

-- Something is found only if there are separators, and only in the text.
find_first_of-some :
    (sep s : Str) (p : ℕ) → find_first_of sep s ≡ some p → (1 ≤ length sep) × (p < length s)
unfolding find_first_of mem_char
find_first_of-some sep [] p e = cc
find_first_of-some [] (c ∷ s) p e = cc (find_first_of-empty (c ∷ s))
find_first_of-some (x ∷ sep) (c ∷ s) p e = elim (Option-cases (find_first_of (x ∷ sep) s)) [
  | inl f ↦ (omega arith, ground (arith, f))
  | inr (q, f) ↦ (omega arith, ground (arith, f, (find_first_of-some (x ∷ sep) s q f).1))
]

split_round-shorter :
    (sep tmp : Str) (out : List Str) (p : ℕ) (out' : List Str) (rest : Str)
    → 1 ≤ length sep
    → p < length tmp
    → split_round sep tmp out p ≡ some (out', rest)
    → length rest < length tmp
unfolding split_round substr
split_round-shorter sep tmp out zero out' rest h k e = ground (arith, length-drop (length sep) tmp)
split_round-shorter sep tmp out (suc p) out' rest h k e =
    ground (arith, length-drop (suc p + length sep) tmp)

split_loop-ends :
    (fuel : ℕ) (sep tmp : Str) (out : List Str)
    → length tmp < fuel
    → split_loop fuel sep tmp out ≢ running
unfolding split_loop
split_loop-ends zero sep tmp out lt e = absurd (omega arith)
split_loop-ends (suc fuel) sep tmp out lt e = elim (Option-cases (find_first_of sep tmp)) [
  | inl f ↦ ground (arith, f)
  | inr (p, f) ↦ elim (Option-cases (split_round sep tmp out p)) [
    | inl g ↦ ground (arith, f, g)
    | inr ((out', rest), g) ↦
        let (some_sep, inside) = find_first_of-some sep tmp p f in
        split_loop-ends fuel sep rest out'
          (omega (arith, split_round-shorter sep tmp out p out' rest some_sep inside g))
          (sym (rw (split_loop, f, g)) ∙ e)
  ]
]

-- Splitting ends, with a list or with the exception of `substr`, whatever the text and the separators.
pub split-ends : (input : Str) (out : List Str) (sep : Str) → split input out sep ≢ running
unfolding split
split-ends input out sep = split_loop-ends (suc (length input)) sep input out (omega arith)
