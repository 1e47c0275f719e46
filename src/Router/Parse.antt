-- ===== src/Router/Parse.antt =====
-- `PathParser::parsePathSegment` of lib/src/router.cc: a route's pattern becomes a path with one
-- `:` for each wildcard, and the queue of those wildcards.
use cppmhd.Prelude.{
  decimal, ℕ, suc, Bool, true, false, some, List, [], ◌∷◌, ◌++◌, Str, codes, ◌==◌, if◌then◌else◌,
  length,
}
use cppmhd.Utils.Split.{finished, split}
use cppmhd.Utils.Regex.{
  Pcre, Regex, no_regex, Group, compile_regex, match, match_group, group_value,
}
use cppmhd.Router.Node.{RouterNodeType}
use cppmhd.Router.Forward.{slash}
use cppmhd.Router.Insert.{Param, param_char}

-- The patterns of lib/src/router.h.
abbrev pub url_static_part_pattern : Str
url_static_part_pattern = codes "^[\\w\\.\\-_]+$"

abbrev pub url_matchall_pattern : Str
url_matchall_pattern = codes "^(?<prefix>[\\w\\.\\-_]*){\\*{2}(:(?<name>\\w+))?}$"

abbrev pub url_regex_pattern : Str
url_regex_pattern = codes "^(?<prefix>[\\w\\.\\-_]*){(?<pattern>[^:]*)(:(?<name>\\w+))?}$"

abbrev pub url_regex_default_pattern : Str
url_regex_default_pattern = codes "[\\w\\.\\-_]*"

abbrev pub url_route_pattern : Str
url_route_pattern = codes "(^(/[^/]+)+/?$)|(^/$)"

abbrev pub url_subroute_prefix_pattern : Str
url_subroute_prefix_pattern = codes "^(/[^/]+)+$"

abbrev compiled : Str → Regex
compiled p = record { code = some p }

-- `getRegex()`: compiled once, kept until exit. The compilation is asserted to succeed.
unfoldable pub normal_static : Regex
normal_static = compiled url_static_part_pattern

unfoldable pub catch_all_regex : Regex
catch_all_regex = compiled url_matchall_pattern

unfoldable pub param_regex : Regex
param_regex = compiled url_regex_pattern

unfoldable pub route_regex : Regex
route_regex = compiled url_route_pattern

unfoldable pub sub_route_regex : Regex
sub_route_regex = compiled url_subroute_prefix_pattern

-- The formatter of `Param`.
unfoldable pub format_param : Param → Str
format_param p = elim p.type [
  | RouterNodeType.catch_all ↦ p.prefix ++ b'{' ∷ (codes "**:" ++ (p.name ++ b'}' ∷ []))
  | RouterNodeType.param ↦ p.prefix ++ b'{' ∷ (p.pattern ++ b':' ∷ (p.name ++ b'}' ∷ []))
  | _ ↦ codes "error Param type"
]

-- The variables of the loop. `failed` is true as long as nothing has failed.
pub record ParseState : Type 0 where
  pub calc : Str
  pub full : Str
  pub index : ℕ
  pub warn : Bool
  pub failed : Bool
  pub params : List Param

abbrev pub parse_start : ParseState
parse_start = record { calc = []; full = []; index = 1; warn = false; failed = true; params = [] }

-- `first /= second`
abbrev pub join_slash : Str → Str → Str
join_slash first second = first ++ b'/' ∷ second

-- `calc = FORMAT("{}/{}{}", calc, prefix, ':')`, `full /= m` and `p.emplace(m)`.
unfoldable pub add_param : Param → ParseState → ParseState
add_param m st = record st {
  calc = st.calc ++ b'/' ∷ (m.prefix ++ param_char ∷ []);
  full = join_slash st.full (format_param m);
  params = st.params ++ m ∷ [];
}

-- A wildcard with no name is numbered.
unfoldable pub number_param : Param → ParseState → Param × ParseState
number_param m st =
    if length m.name == 0
    then (record m { name = decimal st.index }, record st { index = suc st.index; warn = true })
    else (m, st)

abbrev fail : ParseState → ParseState
fail st = record st { failed = false }

abbrev pub catch_all_param : Group → Param
catch_all_param g = record {
  type = RouterNodeType.catch_all;
  prefix = group_value g (codes "prefix");
  name = group_value g (codes "name");
  pattern = [];
  re = no_regex;
}

abbrev pub param_of : Group → Param
param_of g = record {
  type = RouterNodeType.param;
  prefix = group_value g (codes "prefix");
  name = group_value g (codes "name");
  pattern = group_value g (codes "pattern");
  re = no_regex;
}

-- An empty pattern stands for the default one.
unfoldable pub default_pattern : Param → ParseState → Param × ParseState
default_pattern m st =
    if length m.pattern == 0
    then (record m { pattern = url_regex_default_pattern }, record st { warn = true })
    else (m, st)

unfoldable pub add_catch_all : Group → ParseState → ParseState
add_catch_all g st = let (m, st') = number_param (catch_all_param g) st in add_param m st'

pub data ParseResult : Type 0 where
  parsed : (calced full : Str) → List Param → ParseResult
  refused : ParseResult
  thrown : ParseResult

unfoldable pub ends_with_slash : Str → Bool
ends_with_slash [] = false
ends_with_slash (c ∷ []) = c == b'/'
ends_with_slash (c ∷ (d ∷ s)) = ends_with_slash (d ∷ s)

unfoldable pub finish_parse : Str → ParseState → ParseResult
finish_parse path st =
    if st.failed
    then parsed (if ends_with_slash path then st.calc ++ slash else st.calc) st.full st.params
    else refused

module _ (pcre : Pcre) where
  unfoldable pub compile_param : Param → ParseState → ParseState
  compile_param m st =
      let (ok, re) = compile_regex pcre m.pattern in
      if ok then add_param (record m { re = re }) st else fail st

  unfoldable pub add_regex_param : Group → ParseState → ParseState
  add_regex_param g st =
      let (m, st') = number_param (param_of g) st in
      let (m', st'') = default_pattern m st' in compile_param m' st''

  -- One part of the route.
  unfoldable pub parse_part : Str → ParseState → ParseState
  parse_part part st =
      if match pcre normal_static part
      then record st { calc = join_slash st.calc part; full = join_slash st.full part }
      else (let (all, all_group) = match_group pcre catch_all_regex part in
          let (one, one_group) = match_group pcre param_regex part in
          if all
          then add_catch_all all_group st
          else if one
          then add_regex_param one_group st
          else fail st)

  unfoldable pub parse_parts : List Str → ParseState → ParseState
  parse_parts [] st = st
  parse_parts (part ∷ parts) st = parse_parts parts (parse_part part st)

  unfoldable pub parse_path_segment : Str → ParseResult
  unfolding finish_parse parse_parts parse_part add_catch_all add_regex_param compile_param
      default_pattern number_param add_param
  parse_path_segment path =
      if match pcre route_regex path
      then elim (split path [] slash) [
        | finished parts ↦ finish_parse path (parse_parts parts parse_start)
        | _ ↦ thrown
      ]
      else refused
