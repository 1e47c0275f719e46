-- ===== src/Utils/Split/Tokens.antt =====
-- What `split` of lib/src/utils.cc computes for a separator of one character.
use cppmhd.Prelude.{
  ℕ, zero, suc, ◌+◌, ◌≤◌, ◌<◌, ◌≡◌, refl, inl, inr, true, false, none, some, List, [], ◌∷◌, ◌++◌,
  Str, ◌==◌, ltb, if◌then◌else◌, length, length-drop, drop, take, arith, ap, Bool-cases,
  Option-cases, sym, ◌∙◌,
}
use mathlib.Core.Option
use mathlib.Core.List.{append-nil, append_assoc}
use cppmhd.Utils.Split.{finished, mem_char, find_first_of, substr, split_round, split_loop, split}

abbrev pub emit : Str → List Str → List Str
emit [] words = words
emit (x ∷ w) words = (x ∷ w) ∷ words

-- The maximal runs of other characters, one pass over the text.
unfoldable pub tokens_from : ℕ → Str → Str → List Str
tokens_from c cur [] = emit cur []
tokens_from c cur (x ∷ s) = elim (x == c) [
  | true ↦ emit cur (tokens_from c [] s)
  | false ↦ tokens_from c (cur ++ x ∷ []) s
]

unfoldable pub tokens : ℕ → Str → List Str
unfolding tokens_from
tokens c s = tokens_from c [] s

mem_char-one : (c x : ℕ) → mem_char x (c ∷ []) ≡ (c == x)
unfolding mem_char
mem_char-one c x = ground arith

module _ (c : ℕ) where
  tokens_from-none :
      (cur s : Str) → find_first_of (c ∷ []) s ≡ none → tokens_from c cur s ≡ emit (cur ++ s) []
  unfolding tokens_from find_first_of
  tokens_from-none cur [] h = ap (λ w. emit w []) (sym (append-nil cur))
  tokens_from-none cur (x ∷ s) h = elim (Bool-cases (x == c)) [
    | inl e ↦ ground (arith, mem_char-one c x)
    | inr e ↦
        rw (tokens_from, e)
          (tokens_from-none (cur ++ x ∷ []) s
              (ground (arith, mem_char-one c x, Option-cases (find_first_of (c ∷ []) s)))
            ∙ ap (λ w. emit w []) (append_assoc cur (x ∷ []) s))
  ]

  find-here : (x : ℕ) (s : Str) → (x == c) ≡ true → find_first_of (c ∷ []) (x ∷ s) ≡ some 0
  unfolding find_first_of
  find-here x s e = ground (arith, mem_char-one c x)

  find-later :
      (x : ℕ) (s : Str)
      → (x == c) ≡ false
      → find_first_of (c ∷ []) (x ∷ s) ≡ Option.map suc (find_first_of (c ∷ []) s)
  unfolding find_first_of
  find-later x s e = ground (arith, mem_char-one c x)

  tokens_from-hit :
      (cur : Str) (x : ℕ) (s : Str)
      → (x == c) ≡ true
      → tokens_from c cur (x ∷ s) ≡ emit cur (tokens_from c [] s)
  unfolding tokens_from
  tokens_from-hit cur x s e = rw (tokens_from, e)

  tokens_from-miss :
      (cur : Str) (x : ℕ) (s : Str)
      → (x == c) ≡ false
      → tokens_from c cur (x ∷ s) ≡ tokens_from c (cur ++ x ∷ []) s
  unfolding tokens_from
  tokens_from-miss cur x s e = rw (tokens_from, e)

  tokens_from-some :
      (cur s : Str) (pos : ℕ)
      → find_first_of (c ∷ []) s ≡ some pos
      → (suc pos ≤ length s)
        × (tokens_from c cur s ≡ emit (cur ++ take pos s) (tokens_from c [] (drop (suc pos) s)))
  unfolding find_first_of
  tokens_from-some cur [] pos h = cc
  tokens_from-some cur (x ∷ s) zero h = elim (Bool-cases (x == c)) [
    | inl e ↦ (
      omega arith,
      tokens_from-hit cur x s e ∙ ap (λ w. emit w (tokens_from c [] s)) (sym (append-nil cur)),
    )
    | inr e ↦ ground (arith, find-later x s e, Option-cases (find_first_of (c ∷ []) s))
  ]
  tokens_from-some cur (x ∷ s) (suc pos) h = elim (Bool-cases (x == c)) [
    | inl e ↦ ground (arith, find-here x s e)
    | inr e ↦
        let (bound, rest) =
          tokens_from-some (cur ++ x ∷ []) s pos
            (ground (arith, find-later x s e, Option-cases (find_first_of (c ∷ []) s))) in
        (
          omega arith,
          tokens_from-miss cur x s e
              ∙ rest
              ∙ ap (λ w. emit w (tokens_from c [] (drop (suc pos) s)))
                  (append_assoc cur (x ∷ []) (take pos s)),
        )
  ]

  substr-some : (s : Str) (n : ℕ) → n ≤ length s → substr s n ≡ some (drop n s)
  unfolding substr
  substr-some s n h = ground arith

  -- One round leaves the token before the separator, if there is one, and the text behind it.
  round-emit :
      (tmp : Str) (out : List Str) (pos : ℕ)
      → suc pos ≤ length tmp
      → (out' : List Str) × (split_round (c ∷ []) tmp out pos ≡ some (out', drop (suc pos) tmp))
        × ((ws : List Str) → out' ++ ws ≡ out ++ emit (take pos tmp) ws)
  unfolding split_round
  round-emit [] out pos h = absurd (omega arith)
  round-emit (x ∷ tmp) out zero h = (out, ground arith, λ ws. refl)
  round-emit (x ∷ tmp) out (suc pos) h = (
    out ++ (x ∷ take pos tmp) ∷ [],
    ap (Option.map (λ rest. (out ++ (x ∷ take pos tmp) ∷ [], rest))) (
        substr-some (x ∷ tmp) (suc pos + 1) (omega arith)
        ∙ ap (λ n. some (drop n (x ∷ tmp))) {y = suc (suc pos)} (omega arith)),
    λ ws. append_assoc out ((x ∷ take pos tmp) ∷ []) ws,
  )

  last_token :
      (tmp : Str) (out : List Str)
      → find_first_of (c ∷ []) tmp ≡ none
      → (if ltb 0 (length tmp) then out ++ tmp ∷ [] else out) ≡ out ++ tokens_from c [] tmp
  last_token [] out e = sym (ap (◌++◌ out) (tokens_from-none [] [] e) ∙ append-nil out)
  last_token (x ∷ tmp) out e = ground (arith, ap (◌++◌ out) (tokens_from-none [] (x ∷ tmp) e))

  split_loop-tokens :
      (fuel : ℕ) (tmp : Str) (out : List Str)
      → length tmp < fuel
      → split_loop fuel (c ∷ []) tmp out ≡ finished (out ++ tokens c tmp)
  unfolding split_loop tokens
  split_loop-tokens zero tmp out h = elim h [ ]
  split_loop-tokens (suc fuel) tmp out h = elim (Option-cases (find_first_of (c ∷ []) tmp)) [
    | inl e ↦ rw (split_loop, e) (ap finished (last_token tmp out e))
    | inr (pos, e) ↦
        let (bound, toks) = tokens_from-some [] tmp pos e in
        let (out', now, emitted) = round-emit tmp out pos bound in
        rw (split_loop, e, now)
          (split_loop-tokens fuel (drop (suc pos) tmp) out'
              (omega (arith, length-drop (suc pos) tmp))
            ∙ ap finished (emitted _ ∙ ap (◌++◌ out) (sym toks)))
  ]

-- Splitting at one character ends without an exception, whatever the text, and appends the
-- non-empty maximal runs of other characters in their order.
pub split-tokens :
    (input : Str) (out : List Str) (c : ℕ)
    → split input out (c ∷ []) ≡ finished (out ++ tokens c input)
unfolding split
split-tokens input out c = split_loop-tokens c (suc (length input)) input out (omega arith)
