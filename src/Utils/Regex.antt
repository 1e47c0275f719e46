-- ===== src/Utils/Regex.antt =====
-- The class `Regex` of lib/src/utils.h and lib/src/utils.cc, over PCRE2, which is a parameter.
use cppmhd.Prelude.{
  Bool, true, false, Option, none, some, List, [], ◌∷◌, Str, str_eq, is_some, if◌then◌else◌,
}

abbrev pub Group : Type 0
Group = List (Str × Str)

-- What the source calls of PCRE2: `pcre2_compile` as its success, and `pcre2_match` on a compiled
-- pattern as the named groups of a match. With it comes whether the build has assertions.
pub record Pcre : Type 0 where
  pub asserts : Bool
  pub compiles : Str → Bool
  pub exec : Str → Str → Option Group

-- `pattern_` and `re_` are set together: `none` is the null pair.
pub record Regex : Type 0 where
  pub code : Option Str

abbrev pub no_regex : Regex
no_regex = record { code = none }

-- `operator bool`
unfoldable pub valid : Regex → Bool
valid re = is_some re.code

-- `operator==`: two null patterns are not equal.
unfoldable pub same_pattern : Regex → Regex → Bool
same_pattern left right = elim left.code [
  | none ↦ false
  | some p ↦ elim right.code [ none ↦ false | some q ↦ str_eq p q ]
]

module _ (pcre : Pcre) where
  -- On failure `re_` becomes null; the old code was freed first.
  unfoldable pub compile_regex : Str → Bool × Regex
  compile_regex pattern =
      if pcre.compiles pattern then (true, record { code = some pattern }) else (false, no_regex)

  -- `match(const std::string&)`, and with a null check the other overloads without groups.
  unfoldable pub match : Regex → Str → Bool
  match re subject = elim re.code [ none ↦ false | some p ↦ is_some (pcre.exec p subject) ]

  -- `match(const std::string&, Group&)`: the groups are cleared, and filled on success. It has no
  -- null check, and gets patterns that were compiled alone; null is no match here.
  unfoldable pub match_group : Regex → Str → Bool × Group
  match_group re subject = elim re.code [
    | none ↦ (false, [])
    | some p ↦ elim (pcre.exec p subject) [ none ↦ (false, []) | some g ↦ (true, g) ]
  ]

-- `group[key]`: a missing key reads as the empty string.
unfoldable pub group_value : Group → Str → Str
group_value [] key = []
group_value ((k, v) ∷ g) key = if str_eq k key then v else group_value g key
