-- ===== src/Http/Method/Names.antt =====
-- Which texts `parseHttpMethod` of lib/src/http.cc takes for a method.
use cppmhd.Prelude.{
  ◌≡◌, refl, ◌↔◌, true, some, List, [], ◌∷◌, ◌++◌, Str, strn_equal, ==_iff, length, arith, ap, ap₂,
  ◌∙◌,
}
use cppmhd.Core.{
  HttpMethod, get, head, post, put, delete, options, connect, trace, patch, format_method,
}
use cppmhd.Http.Method.{match_method, tested, first_match, parse_http_method}

strn_equal-prefix : (s p : Str) → strn_equal s p (length p) ≡ true → (rest : Str) × (s ≡ p ++ rest)
unfolding strn_equal
strn_equal-prefix s [] h = (s, refl)
strn_equal-prefix [] (y ∷ p) h = cc
strn_equal-prefix (x ∷ s) (y ∷ p) h =
    let (rest, e) = strn_equal-prefix s p (ground arith) in
    (rest, ap₂ ◌∷◌ (ground (arith, ==_iff x y)) e)

first_match_sound :
    (s : Str) (ms : List HttpMethod) (m : HttpMethod)
    → first_match s ms ≡ some m
    → match_method s m ≡ true
unfolding first_match
first_match_sound s [] m h = cc
first_match_sound s (n ∷ ms) m h = ground (arith, first_match_sound s ms m)

parse-format : (m : HttpMethod) (rest : Str) → parse_http_method (format_method m ++ rest) ≡ some m
unfolding parse_http_method match_method strn_equal
parse-format get rest = refl
parse-format head rest = refl
parse-format post rest = refl
parse-format put rest = refl
parse-format delete rest = refl
parse-format options rest = refl
parse-format connect rest = refl
parse-format trace rest = refl
parse-format patch rest = refl

-- A text is taken for a method exactly if it begins with the method's name; what follows the name
-- does not matter.
pub parse_http_method_iff :
    (s : Str) (m : HttpMethod)
    → (parse_http_method s ≡ some m) ↔ ((rest : Str) × (s ≡ format_method m ++ rest))
unfolding parse_http_method match_method
parse_http_method_iff s m = (
  λ h. strn_equal-prefix s (format_method m) (first_match_sound s tested m h),
  λ (rest, e). ap parse_http_method e ∙ parse-format m rest,
)
