-- ===== src/Http/Method.antt =====
-- `parseHttpMethod` of lib/src/http.cc.
pub mod Names
use cppmhd.Prelude.{
  ℕ, ◌≡◌, refl, Bool, true, false, Option, none, some, List, [], ◌∷◌, ◌++◌, Str, codes, strn_equal,
  if◌then◌else◌, length, arith,
}
use cppmhd.Core.{
  HttpMethod, get, head, post, put, delete, options, connect, trace, patch, format_method,
}

-- `strncmp(a, b, sizeof(b) - 1) == 0`
unfoldable pub match_method : Str → HttpMethod → Bool
match_method a m = strn_equal a (format_method m) (length (format_method m))

-- The methods in the order of the tests.
abbrev pub tested : List HttpMethod
tested = get ∷ post ∷ put ∷ delete ∷ options ∷ head ∷ trace ∷ patch ∷ connect ∷ []

unfoldable pub first_match : Str → List HttpMethod → Option HttpMethod
unfolding match_method
first_match s [] = none
first_match s (m ∷ ms) = if match_method s m then some m else first_match s ms

unfoldable pub parse_http_method : Str → Option HttpMethod
unfolding first_match
parse_http_method s = first_match s tested
