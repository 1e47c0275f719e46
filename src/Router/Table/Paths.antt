-- ===== src/Router/Table/Paths.antt =====
-- Static route paths, and what `parsePathSegment` makes of them.
use cppmhd.Prelude.{
  ◌≡◌, refl, Bool, true, false, List, [], ◌∷◌, ◌++◌, Str, ◌==◌, arith, ap, sym, ◌∙◌, subst, All,
}
use mathlib.Core.List.{append-nil, append_assoc}
use cppmhd.Utils.Regex.{Pcre, match}
use cppmhd.Utils.Split.{finished, split}
use cppmhd.Router.Forward.{slash}
use cppmhd.Router.Insert.{find_wildcard, param_char}
use cppmhd.Router.Parse.{
  normal_static, route_regex, ParseState, parsed, parse_start, parse_part, parse_parts,
  finish_parse, parse_path_segment, join_slash,
}
use cppmhd.Router.Radix.Prefix.{IsPlain}
use cppmhd.Router.Radix.Lookup.{Starts}
use cppmhd.Router.Table.Segments.{
  render, IsSegment, ends_with_slash-true, ends_with_slash-false, split-render,
}

-- A segment that can be told from its neighbours and from a wildcard.
abbrev pub IsWord : Str → Type 0
IsWord [] = ⊥
IsWord (c ∷ s) = All (λ x. ((x == b'/') ≡ false) × ((x == param_char) ≡ false)) (c ∷ s)

-- A path of static segments which PCRE2 accepts as a route, with segments that it finds static.
pub record IsStatic (pcre : Pcre) (path : Str) : Type 0 where
  pub segments : List Str
  pub trailing : Bool
  pub rendered : path ≡ render segments trailing
  pub begins : Starts b'/' path
  pub routed : match pcre route_regex path ≡ true
  pub words : All IsWord segments
  pub static : All (λ s. match pcre normal_static s ≡ true) segments

abbrev IsPart : Str → Type 0
IsPart = All (λ x. ((x == b'/') ≡ false) × ((x == param_char) ≡ false))

IsPart-segment : (s : Str) → IsPart s → All (λ x. (x == b'/') ≡ false) s
IsPart-segment [] h = tt
IsPart-segment (x ∷ s) h = (h.0.0, IsPart-segment s h.1)

IsWord-IsSegment : (ss : List Str) → All IsWord ss → All IsSegment ss
IsWord-IsSegment [] h = tt
IsWord-IsSegment ([] ∷ ss) h = absurd h.0
IsWord-IsSegment ((c ∷ s) ∷ ss) h = (IsPart-segment (c ∷ s) h.0, IsWord-IsSegment ss h.1)

render-slash : (ss : List Str) → render ss false ++ slash ≡ render ss true
render-slash [] = refl
render-slash (s ∷ ss) =
    ap (◌∷◌ b'/') (append_assoc s (render ss false) slash ∙ ap (◌++◌ s) (render-slash ss))

pub parse_part-static :
    (pcre : Pcre) (s : Str) (st : ParseState)
    → match pcre normal_static s ≡ true
    → parse_part pcre s st ≡ record st { calc = join_slash st.calc s; full = join_slash st.full s }
unfolding parse_part
parse_part-static pcre s st h = rw h

module _ (pcre : Pcre) where
  -- Static segments go to the path as they are, and leave the flag and the queue alone.
  parse_parts-static :
      (ss : List Str) (st : ParseState)
      → All (λ s. match pcre normal_static s ≡ true) ss
      → (full : Str) × (parse_parts pcre ss st
          ≡ record st { calc = st.calc ++ render ss false; full = full })
  unfolding parse_parts
  parse_parts-static [] st h = (st.full, ground (arith, append-nil st.calc))
  parse_parts-static (s ∷ ss) st h =
      let next = record st { calc = join_slash st.calc s; full = join_slash st.full s } in
      let (full, e) = parse_parts-static ss next h.1 in
      (
        full,
        ap (parse_parts pcre ss) (parse_part-static pcre s st h.0)
            ∙ e
            ∙ ap (λ c. record st { calc = c; full = full })
                (append_assoc st.calc (b'/' ∷ s) (render ss false)),
      )

  finish_parse-static :
      (ss : List Str) (b : Bool) (full : Str)
      → All IsWord ss
      → finish_parse (render ss b) (record parse_start { calc = render ss false; full = full })
        ≡ parsed (render ss b) full []
  unfolding finish_parse
  finish_parse-static ss true full h =
      rw (ends_with_slash-true ss) (ap (λ c. parsed c full []) (render-slash ss))
  finish_parse-static ss false full h = rw (ends_with_slash-false ss (IsWord-IsSegment ss h))

  -- A static path is parsed to itself, with no wildcard.
  pub parse_path_segment-static :
      (path : Str)
      → IsStatic pcre path
      → (full : Str) × (parse_path_segment pcre path ≡ parsed path full [])
  unfolding parse_path_segment
  parse_path_segment-static path v =
      let (full, e) = parse_parts-static v.segments parse_start v.static in
      let once : split path [] slash ≡ finished v.segments =
        ap (λ p. split p [] slash) v.rendered
        ∙ split-render v.segments v.trailing (IsWord-IsSegment v.segments v.words) in
      (
        full,
        rw (v.routed, once, e)
            (ap
                (λ p.
                  finish_parse p
                    (record parse_start { calc = render v.segments false; full = full }))
                v.rendered
              ∙ finish_parse-static v.segments v.trailing full v.words
              ∙ ap (λ p. parsed p full []) (sym v.rendered)),
      )

IsPlain-part : (s rest : Str) → IsPart s → IsPlain rest → IsPlain (s ++ rest)
unfolding find_wildcard
IsPlain-part [] rest h k = k
IsPlain-part (x ∷ s) rest h k = rw (h.0.1, IsPlain-part s rest h.1 k)

render-IsPlain : (ss : List Str) (b : Bool) → All IsWord ss → IsPlain (render ss b)
unfolding find_wildcard
render-IsPlain [] true h = refl
render-IsPlain [] false h = refl
render-IsPlain ([] ∷ ss) b h = absurd h.0
render-IsPlain ((c ∷ s) ∷ ss) b h =
    rw (IsPlain-part (c ∷ s) (render ss b) h.0 (render-IsPlain ss b h.1))

-- A static path has no wildcard character.
pub IsStatic-IsPlain : (pcre : Pcre) (path : Str) → IsStatic pcre path → IsPlain path
IsStatic-IsPlain pcre path v =
    subst IsPlain (sym v.rendered) (render-IsPlain v.segments v.trailing v.words)
