-- ===== src/Router/Params/Parsing.antt =====
-- `PathParser::parsePathSegment` of lib/src/router.cc on routes with parameters.
use cppmhd.Prelude.{
  ℕ, suc, decimal, arith, subst, ◌≡◌, refl, sym, ap, ap₂, ◌∙◌, Bool, true, false, some, List, [],
  ◌∷◌, ◌++◌, Str, codes, ◌==◌, All, length,
}
use mathlib.Core.List.{append-nil, append_assoc}
use cppmhd.Utils.Regex.{Pcre, Group, no_regex, match, match_group, group_value, compile_regex}
use cppmhd.Utils.Split.{finished, split}
use cppmhd.Router.Node.{RouterNodeType}
use cppmhd.Router.Forward.{slash}
use cppmhd.Router.Insert.{Param, param_char}
use cppmhd.Router.Parse.{
  url_regex_default_pattern, normal_static, catch_all_regex, param_regex, route_regex, ParseState,
  parsed, parse_start, join_slash, add_param, number_param, default_pattern, catch_all_param,
  param_of, add_catch_all, compile_param, add_regex_param, parse_part, parse_parts, finish_parse,
  parse_path_segment,
}
use cppmhd.Router.Table.Paths.{parse_part-static}
use cppmhd.Router.Table.Segments.{
  render, IsSegment, ends_with_slash-true, ends_with_slash-false, split-render,
}
use cppmhd.Router.Params.Trails.{Trail, pattern_of, queue, IsTrail}

-- A segment of a route: static, or a wildcard as it is written and as it is read.
pub data Segment : Type 0 where
  word : Str → Segment
  wild : Str → Param → Segment

-- A text, or another in the place of an empty one.
abbrev pub or_else : Str → Str → Str
or_else [] s = s
or_else (c ∷ t) s = c ∷ t

-- The number for the next wildcard without a name.
abbrev pub numbered : Str → ℕ → ℕ
numbered [] n = suc n
numbered (c ∷ t) n = n

-- A parameter and a catch-all as they are to be read: a missing name is the number, and a missing
-- pattern the default one.
abbrev pub read_param : ℕ → Group → Param
read_param n g =
    let pattern = or_else (group_value g (codes "pattern")) url_regex_default_pattern in
    record {
      type = RouterNodeType.param;
      prefix = group_value g (codes "prefix");
      name = or_else (group_value g (codes "name")) (decimal n);
      pattern = pattern;
      re = record { code = some pattern };
    }

abbrev pub read_catch_all : ℕ → Group → Param
read_catch_all n g = record {
  type = RouterNodeType.catch_all;
  prefix = group_value g (codes "prefix");
  name = or_else (group_value g (codes "name")) (decimal n);
  pattern = [];
  re = no_regex;
}

-- PCRE2 reads the text as a catch-all, or else as a parameter whose pattern compiles; the numbers are
-- those before and after it.
pub data Reads (pcre : Pcre) (source : Str) : ℕ → Param → ℕ → Type 0 where
  as_param :
      (n : ℕ) (none_of g : Group)
      → match pcre normal_static source ≡ false
      → match_group pcre catch_all_regex source ≡ (false, none_of)
      → match_group pcre param_regex source ≡ (true, g)
      → pcre.compiles (read_param n g).pattern ≡ true
      → Reads pcre source n (read_param n g) (numbered (group_value g (codes "name")) n)
  as_rest :
      (n : ℕ) (g : Group)
      → match pcre normal_static source ≡ false
      → match_group pcre catch_all_regex source ≡ (true, g)
      → Reads pcre source n (read_catch_all n g) (numbered (group_value g (codes "name")) n)

-- The segments are read one after the other, from a number on.
abbrev pub AreRead : Pcre → ℕ → List Segment → Type 0
AreRead pcre n [] = Unit
AreRead pcre n (word s ∷ ss) = (match pcre normal_static s ≡ true) × AreRead pcre n ss
AreRead pcre n (wild source p ∷ ss) = (m : ℕ) × Reads pcre source n p m × AreRead pcre m ss

-- How a segment is written, what it adds to the path that is inserted, and to the queue.
abbrev pub sources : List Segment → List Str
sources [] = []
sources (word s ∷ ss) = s ∷ sources ss
sources (wild s p ∷ ss) = s ∷ sources ss

abbrev pub calced : List Segment → Str
calced [] = []
calced (word s ∷ ss) = b'/' ∷ (s ++ calced ss)
calced (wild s p ∷ ss) = b'/' ∷ ((p.prefix ++ param_char ∷ []) ++ calced ss)

abbrev pub wilds : List Segment → List Param
wilds [] = []
wilds (word s ∷ ss) = wilds ss
wilds (wild s p ∷ ss) = p ∷ wilds ss

-- A path that is read as the trail.
pub record IsRoute (pcre : Pcre) (path : Str) (t : Trail) : Type 0 where
  pub segments : List Segment
  pub trailing : Bool
  pub rendered : path ≡ render (sources segments) trailing
  pub routed : match pcre route_regex path ≡ true
  pub whole : All IsSegment (sources segments)
  pub read : AreRead pcre 1 segments
  pub pattern : pattern_of t ≡ calced segments ++ render [] trailing
  pub queued : queue t ≡ wilds segments
  pub trail : IsTrail t

number_param-or_else :
    (m : Param) (s : Str) (st : ParseState)
    → (warn : Bool) × (number_param (record m { name = s }) st ≡ (
      record m { name = or_else s (decimal st.index) },
      record st { index = numbered s st.index; warn = warn },
    ))
unfolding number_param
number_param-or_else m [] st = (true, refl)
number_param-or_else m (c ∷ s) st =
    let filled : (length (c ∷ s) == 0) ≡ false = ground arith in (st.warn, rw filled refl)

default_pattern-or_else :
    (m : Param) (s : Str) (st : ParseState)
    → (warn : Bool) × (default_pattern (record m { pattern = s }) st
        ≡ (record m { pattern = or_else s url_regex_default_pattern }, record st { warn = warn }))
unfolding default_pattern
default_pattern-or_else m [] st = (true, refl)
default_pattern-or_else m (c ∷ s) st =
    let filled : (length (c ∷ s) == 0) ≡ false = ground arith in (st.warn, rw filled refl)

module _ (pcre : Pcre) where
  add_regex_param-read :
      (g : Group) (st : ParseState)
      → pcre.compiles (read_param st.index g).pattern ≡ true
      → (warn : Bool) × (add_regex_param pcre g st
          ≡ add_param
              (read_param st.index g)
              (record st { index = numbered (group_value g (codes "name")) st.index; warn = warn }))
  unfolding add_regex_param compile_param compile_regex
  add_regex_param-read g st ok =
      let name = group_value g (codes "name") in
      let pattern = group_value g (codes "pattern") in
      let (w, e) = number_param-or_else (param_of g) name st in
      let m : Param = record (param_of g) { name = or_else name (decimal st.index) } in
      let st' : ParseState = record st { index = numbered name st.index; warn = w } in
      let (w', f) = default_pattern-or_else m pattern st' in
      (w', rw (add_regex_param, e, f, compile_param, compile_regex, ok) refl)

  parse_part-wild :
      (source : Str) (n m : ℕ) (p : Param) (st : ParseState)
      → Reads pcre source n p m
      → st.index ≡ n
      → (warn : Bool) × (parse_part pcre source st
          ≡ add_param p (record st { index = m; warn = warn }))
  unfolding parse_part add_catch_all
  parse_part-wild source n _ _ st (as_param _ k g a b c ok) at =
      let ok' : pcre.compiles (read_param st.index g).pattern ≡ true =
        subst (λ n. pcre.compiles (read_param n g).pattern ≡ true) (sym at) ok in
      let (w, e) = add_regex_param-read g st ok' in
      subst
        (λ n.
          (warn : Bool) × (parse_part pcre source st
            ≡ add_param (read_param n g)
                (record st { index = numbered (group_value g (codes "name")) n; warn = warn })))
        at (w, rw (parse_part, a, b, c) e)
  parse_part-wild source n _ _ st (as_rest _ g a b) at =
      let (w, e) = number_param-or_else (catch_all_param g) (group_value g (codes "name")) st in
      subst
        (λ n.
          (warn : Bool) × (parse_part pcre source st
            ≡ add_param (read_catch_all n g)
                (record st { index = numbered (group_value g (codes "name")) n; warn = warn })))
        at (w, rw (parse_part, a, b, add_catch_all, e) refl)

  -- The loop leaves the path, the queue and the flag as they should be.
  parse_parts-read :
      (ss : List Segment) (n : ℕ) (st : ParseState)
      → AreRead pcre n ss
      → st.failed ≡ true
      → st.index ≡ n
      → (full : Str) × (index : ℕ) × (warn : Bool) × (parse_parts pcre (sources ss) st ≡ record st {
        calc = st.calc ++ calced ss;
        full = full;
        index = index;
        warn = warn;
        params = st.params ++ wilds ss;
      })
  unfolding parse_parts add_param
  parse_parts-read [] n st h ok at = (
    st.full,
    st.index,
    st.warn,
    ap₂ (λ c ps. record st { calc = c; params = ps }) (sym (append-nil st.calc))
        (sym (append-nil st.params)),
  )
  parse_parts-read (word s ∷ ss) n st h ok at =
      let next = record st { calc = join_slash st.calc s; full = join_slash st.full s } in
      let (full, index, warn, e) = parse_parts-read ss n next h.1 ok at in
      (
        full,
        index,
        warn,
        ap (parse_parts pcre (sources ss)) (parse_part-static pcre s st h.0)
            ∙ e
            ∙ ap
                (λ c. record st {
                  calc = c;
                  full = full;
                  index = index;
                  warn = warn;
                  params = st.params ++ wilds ss;
                })
                (append_assoc st.calc (b'/' ∷ s) (calced ss)),
      )
  parse_parts-read (wild s p ∷ ss) n st (m, reads, h) ok at =
      let (w, one) = parse_part-wild s n m p st reads at in
      let next = add_param p (record st { index = m; warn = w }) in
      let (full, index, warn, e) = parse_parts-read ss m next h ok refl in
      (
        full,
        index,
        warn,
        ap (parse_parts pcre (sources ss)) one
            ∙ e
            ∙ ap₂
                (λ c ps. record st {
                  calc = c;
                  full = full;
                  index = index;
                  warn = warn;
                  params = ps;
                })
                (append_assoc st.calc (b'/' ∷ (p.prefix ++ param_char ∷ [])) (calced ss))
                (append_assoc st.params (p ∷ []) (wilds ss)),
      )

  finish_parse-read :
      (ss : List Segment) (b : Bool) (st : ParseState)
      → All IsSegment (sources ss)
      → st.failed ≡ true
      → finish_parse (render (sources ss) b) st ≡ parsed (st.calc ++ render [] b) st.full st.params
  unfolding finish_parse
  finish_parse-read ss true st h ok = rw (ok, ends_with_slash-true (sources ss)) refl
  finish_parse-read ss false st h ok =
      rw (ok, ends_with_slash-false (sources ss) h)
        (ap (λ c. parsed c st.full st.params) (sym (append-nil st.calc)))

  -- A route is parsed to the path and the queue of its trail. Its parts are static, or parameters and
  -- catch-alls, with a name and a pattern of their own or without: a parameter or catch-all without a
  -- name gets the number of those without a name up to it, counted from 1, and a parameter without a
  -- pattern gets the default one. Between two wildcards, and before the first, there is some text,
  -- which begins with a slash, and a catch-all is the end.
  pub parse_path_segment-read :
      (path : Str) (t : Trail)
      → IsRoute pcre path t
      → (full : Str) × (parse_path_segment pcre path ≡ parsed (pattern_of t) full (queue t))
  unfolding parse_path_segment
  parse_path_segment-read path t v =
      let ss = v.segments in
      let (full, index, warn, e) = parse_parts-read ss 1 parse_start v.read refl refl in
      let once : split path [] slash ≡ finished (sources ss) =
        ap (λ p. split p [] slash) v.rendered ∙ split-render (sources ss) v.trailing v.whole in
      let done = record parse_start {
        calc = calced ss;
        full = full;
        index = index;
        warn = warn;
        params = wilds ss;
      } in
      (
        full,
        rw (v.routed, once, e)
            (ap (λ p. finish_parse p done) v.rendered
              ∙ finish_parse-read ss v.trailing done v.whole refl
              ∙ ap₂ (λ c ps. parsed c full ps) (sym v.pattern) (sym v.queued)),
      )
