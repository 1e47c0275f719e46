-- ===== src/Entity.antt =====
-- Requests and responses: lib/include/cppmhd/entity.h, lib/src/entity.h and lib/src/entity.cc.
use cppmhd.Prelude.{
  ℕ, Bool, true, false, not, ◌&&◌, Option, none, some, List, [], ◌∷◌, Str, codes, str_eq, ◌==◌, ltb,
  leb, if◌then◌else◌, length,
}
use Prim.Native.Nat.{min, ◌+◌}
use cppmhd.Core.{HttpMethod}
use cppmhd.Core.Status.{HttpStatusCode}
use cppmhd.Router.Forward.{Params}

pub data RequestState : Type 0 where
  initial initial_complete data_receiving data_received rs_error : RequestState

-- The text of `formatter<RequestState>` in lib/src/format.h.
abbrev pub format_state : RequestState → Str
format_state initial = codes "INITIAL"
format_state initial_complete = codes "INITIAL_COMPLETE"
format_state data_receiving = codes "DATA_RECEIVING"
format_state data_received = codes "DATA_RECEIVED"
format_state rs_error = codes "ERROR"

-- `MHDHttpRequest`; a processor is the address of a `DataProcessor`, or null.
pub record Request : Type 0 where
  pub uri : Str
  pub mhd : HttpMethod
  pub state : RequestState
  pub param : Params
  pub processor : Option ℕ

-- The constructor.
unfoldable pub new_request : Str → HttpMethod → Request
new_request uri mhd = record { uri = uri; mhd = mhd; state = initial; param = []; processor = none }

-- `getParam`: a missing name reads as the empty string.
unfoldable pub get_param : Params → Str → Str
get_param [] name = []
get_param ((k, v) ∷ ps) name = if str_eq k name then v else get_param ps name

-- `tolower` in the C locale.
unfoldable pub to_lower : ℕ → ℕ
to_lower c = if leb b'A' c && leb c b'Z' then c + 32 else c

-- `strncasecmp(first, second, n) < 0`
unfoldable pub case_less : ℕ → Str → Str → Bool
unfolding to_lower
case_less n [] [] = false
case_less n [] (y ∷ ys) = ltb 0 n
case_less n (x ∷ xs) [] = false
case_less ℕ.zero (x ∷ xs) (y ∷ ys) = false
case_less (ℕ.suc n) (x ∷ xs) (y ∷ ys) =
    if ltb (to_lower x) (to_lower y)
    then true
    else if ltb (to_lower y) (to_lower x)
    then false
    else case_less n xs ys

-- `HttpHeaderCompare`: only as many characters count as the shorter key has.
unfoldable pub header_less : Str → Str → Bool
unfolding case_less
header_less first second = case_less (min (length first) (length second)) first second

abbrev pub Headers : Type 0
Headers = List (Str × Str)

-- Keys that the map takes for one. The order is no strict weak one, so `std::map` leaves open which of
-- several such keys it finds; here it is the one that was added first.
unfoldable pub same_header : Str → Str → Bool
unfolding header_less
same_header first second = not (header_less first second) && not (header_less second first)

-- The value that `headers_[key]` refers to, and writing through that reference. The empty value that
-- the operator adds for a missing key is not kept here: each reader that finds it empty writes it.
unfoldable pub header_value : Headers → Str → Str
header_value [] key = []
header_value ((k, v) ∷ hs) key = if same_header k key then v else header_value hs key

unfoldable pub set_header : Headers → Str → Str → Headers
set_header [] key value = (key, value) ∷ []
set_header ((k, v) ∷ hs) key value =
    if same_header k key then (k, value) ∷ hs else (k, v) ∷ set_header hs key value

-- `body_`: the bytes, and whether the response owns a copy of them.
pub record Body : Type 0 where
  pub bytes : Str
  pub owned : Bool

pub record Response : Type 0 where
  pub sc : HttpStatusCode
  pub headers : Headers
  pub body : Body

-- `header(key, value)`
unfoldable pub header : Str → Str → Response → Response
header key value r = record r { headers = set_header r.headers key value }

-- `body(size, data, persistent)`; nothing happens with no data.
unfoldable pub body_bytes : Option Str → Bool → Response → Response
body_bytes none persistent r = r
body_bytes (some bytes) persistent r =
    if length bytes == 0
    then r
    else record r { body = record { bytes = bytes; owned = not persistent } }

abbrev pub content_type : Str
content_type = codes "Content-Type"

-- `body(const std::string&)`: a copy, as plain text.
unfoldable pub body_text : Str → Response → Response
unfolding body_bytes header
body_text text r = header content_type (codes "text/plain") (body_bytes (some text) false r)
