-- ===== src/Router/Table/Segments.antt =====
-- Route paths as segments, and what `split` of lib/src/utils.cc makes of them.
use cppmhd.Prelude.{
  ℕ, ◌≡◌, refl, Bool, true, false, List, [], ◌∷◌, ◌++◌, Str, ◌==◌, ap, sym, ◌∙◌, All,
}
use mathlib.Core.List.{append-nil, append_assoc}
use cppmhd.Utils.Split.{finished, split}
use cppmhd.Utils.Split.Tokens.{emit, tokens_from, tokens, split-tokens}
use cppmhd.Router.Forward.{slash}
use cppmhd.Router.Parse.{ends_with_slash}

-- Segments behind a slash each, and a slash at the end if `trailing`.
abbrev pub render : List Str → Bool → Str
render [] true = slash
render [] false = []
render (s ∷ ss) trailing = b'/' ∷ s ++ render ss trailing

-- A segment that can be told from its neighbours.
abbrev pub IsSegment : Str → Type 0
IsSegment [] = ⊥
IsSegment (c ∷ s) = All (λ x. (x == b'/') ≡ false) (c ∷ s)

abbrev IsPart : Str → Type 0
IsPart = All (λ x. (x == b'/') ≡ false)

-- Reading a segment to its end.
tokens_from-part :
    (w s rest : Str) → IsPart s → tokens_from b'/' w (s ++ rest) ≡ tokens_from b'/' (w ++ s) rest
unfolding tokens_from
tokens_from-part w [] rest h = ap (λ v. tokens_from b'/' v rest) (sym (append-nil w))
tokens_from-part w (x ∷ s) rest h =
    rw (tokens_from, h.0)
      (tokens_from-part (w ++ x ∷ []) s rest h.1
        ∙ ap (λ v. tokens_from b'/' v rest) (append_assoc w (x ∷ []) s))

tokens_from-slash : (w s : Str) → tokens_from b'/' w (b'/' ∷ s) ≡ emit w (tokens_from b'/' [] s)
unfolding tokens_from
tokens_from-slash w s = refl

tokens_from-render :
    (w : Str) (ss : List Str) (b : Bool)
    → All IsSegment ss
    → tokens_from b'/' w (render ss b) ≡ emit w ss
unfolding tokens_from
tokens_from-render w [] true h = refl
tokens_from-render w [] false h = refl
tokens_from-render w ([] ∷ ss) b h = absurd h.0
tokens_from-render w ((c ∷ s) ∷ ss) b h =
    tokens_from-slash w ((c ∷ s) ++ render ss b)
    ∙ ap (emit w)
        (tokens_from-part [] (c ∷ s) (render ss b) h.0 ∙ tokens_from-render (c ∷ s) ss b h.1)

ends_with_slash-cons : (c d : ℕ) (s : Str) → ends_with_slash (c ∷ (d ∷ s)) ≡ ends_with_slash (d ∷ s)
unfolding ends_with_slash
ends_with_slash-cons c d s = refl

-- A slash at the end of a path, behind anything.
pub ends_with_slash-true : (ss : List Str) → ends_with_slash (render ss true) ≡ true
unfolding ends_with_slash
ends_with_slash-true [] = refl
ends_with_slash-true (s ∷ ss) = behind b'/' s ss (ends_with_slash-true ss)
  where
    behind :
        (c : ℕ) (s : Str) (ss : List Str)
        → ends_with_slash (render ss true) ≡ true
        → ends_with_slash (c ∷ (s ++ render ss true)) ≡ true
    behind c [] [] h = h
    behind c [] (t ∷ ss) h = h
    behind c (d ∷ s) ss h = behind d s ss h

-- A word is not followed by a slash where the path ends without one.
ends_with_slash-word :
    (ss : List Str) (c : ℕ) (s : Str)
    → (c == b'/') ≡ false
    → IsPart s
    → All IsSegment ss
    → ends_with_slash (c ∷ (s ++ render ss false)) ≡ false
unfolding ends_with_slash
ends_with_slash-word [] c [] h k w = h
ends_with_slash-word ([] ∷ ts) c [] h k w = absurd w.0
ends_with_slash-word ((d ∷ t) ∷ ts) c [] h k w = ends_with_slash-word ts d t w.0.0 w.0.1 w.1
ends_with_slash-word ss c (x ∷ s) h k w = ends_with_slash-word ss x s k.0 k.1 w

pub ends_with_slash-false :
    (ss : List Str) → All IsSegment ss → ends_with_slash (render ss false) ≡ false
unfolding ends_with_slash
ends_with_slash-false [] h = refl
ends_with_slash-false ([] ∷ ss) h = absurd h.0
ends_with_slash-false ((c ∷ s) ∷ ss) h = ends_with_slash-word ss c s h.0.0 h.0.1 h.1

pub split-render :
    (ss : List Str) (b : Bool) → All IsSegment ss → split (render ss b) [] slash ≡ finished ss
unfolding tokens
split-render ss b h =
    split-tokens (render ss b) [] b'/' ∙ ap finished (tokens_from-render [] ss b h)
