-- ===== src/Http/Tests.antt =====
-- A small server, and the calls of some requests to it.
use cppmhd.Prelude.{
  ℕ, Bool, true, false, Option, none, some, List, [], ◌∷◌, ◌++◌, Str, codes, is_some, ◌≡◌, ◌↔◌,
  refl, ltb, All,
}
use cppmhd.Core.{HttpMethod, get, post, format_method}
use cppmhd.Core.Status.{ok, bad_request, not_found}
use cppmhd.Entity.{
  content_type, Request, Response, RequestState, initial_complete, data_receiving, rs_error,
}
use cppmhd.Router.Node.{node, nil, raw_node}
use cppmhd.Router.Insert.{static_end}
use cppmhd.Http.Method.{parse_http_method}
use cppmhd.Http.Method.Names.{parse_http_method_iff}
use cppmhd.Http.Server.{Server, send, create_response, server_key}
use cppmhd.Http.Server.ErrorPage.{
  default_error_handler, text_html, lines, page, send-default_error_handler,
}
use cppmhd.Http.Server.Sending.{send-create_response}
use cppmhd.Http.Connection.{ConnectionObject, Call, Reaction, answers, connection_cb}
use cppmhd.Http.Connection.Rounds.{Life, first, next, Life-explained}
use cppmhd.Http.Connection.Recovery.{calls, swallowed, Life-drain}

abbrev empty_response : Response
empty_response = record { sc = ok; headers = []; body = record { bytes = []; owned = true } }

-- One route, whose controller sets the data processor 1; the processor takes all data.
abbrev pub demo : Server
demo = record {
  pcre = record { asserts = true; compiles = λ p. true; exec = λ p s. none };
  trees =
      record { mtd = post; root = node (static_end (codes "/up") (some 1) raw_node) nil }
      ∷ record { mtd = get; root = node (static_end (codes "/up") (some 1) raw_node) nil }
      ∷ [];
  host = [];
  project = codes "cppmhd";
  error_handler = λ req sc e message. record {
    sc = sc;
    headers = [];
    body = record { bytes = message; owned = true };
  };
  on_connection = λ ctrl req. (some 1, none);
  on_request = λ ctrl req resp. (req.processor, some empty_response);
  on_data = λ pp req bytes n. (some pp, n);
}

abbrev pub call : Str → Str → Option Str → ℕ → Call
call method url bytes n = record {
  url = url;
  method = method;
  version = codes "HTTP/1.1";
  host_field = none;
  bytes = bytes;
  data_size = n;
}

abbrev pub posted : ℕ → Call
posted n = call (codes "POST") (codes "/up") (some (codes "data")) n

pub keeps :
    (pp : ℕ) (req : Request) (bytes : Option Str) (n : ℕ)
    → is_some (demo.on_data pp req bytes n).0 ≡ true
keeps pp req bytes n = refl

abbrev pub seen : HttpMethod → RequestState → Option Response → ConnectionObject
seen mtd state response = record {
  request = record { uri = codes "/up"; mhd = mtd; state = state; param = []; processor = some 1 };
  response = response;
  ctrl = some 1;
}

abbrev pub quiet : ConnectionObject → Reaction
quiet co = record { con = some co; left = 0; queued = none }

abbrev pub opened : ConnectionObject
opened = seen post initial_complete none

abbrev pub receiving : ConnectionObject
receiving = seen post data_receiving none

abbrev pub got : ℕ → Call
got n = call (codes "GET") (codes "/up") (some (codes "data")) n

abbrev complaint : Response
complaint = record {
  sc = bad_request;
  headers = [];
  body = record { bytes = codes "Data in GET Request to /up"; owned = true };
}

abbrev failed : ConnectionObject
failed = seen get rs_error (some complaint)

-- A GET request with data.
failed-Life : Life demo failed
unfolding connection_cb parse_http_method cppmhd.Prelude.strn_equal cppmhd.Http.Server.check_request
    cppmhd.Prelude.str_eq cppmhd.Router.Forward.forward cppmhd.Entity.new_request
failed-Life =
    next (got 4) (quiet failed) (seen get initial_complete none) failed
      (first (got 0) (quiet (seen get initial_complete none)) (seen get initial_complete none) refl
        refl)
      refl refl

Life-explained_example : is_some failed.response ≡ true
Life-explained_example = Life-explained demo keeps failed failed-Life refl

Life-drain_example :
    (r : Response) × (failed.response ≡ some r)
    × (calls demo failed (got 3 ∷ got 8 ∷ [])
        ≡ some (failed, swallowed failed ∷ swallowed failed ∷ []))
    × (connection_cb demo (some failed) (got 0) ≡ answers demo failed r 0)
Life-drain_example =
    Life-drain demo keeps failed (got 3 ∷ got 8 ∷ []) (got 0) failed-Life refl (refl, (refl, tt))
      refl

parse_http_method_iff_example :
    (parse_http_method (codes "GETX") ≡ some get)
    ↔ ((rest : Str) × (codes "GETX" ≡ format_method get ++ rest))
parse_http_method_iff_example = parse_http_method_iff (codes "GETX") get

send-create_response_example :
    send (codes "cppmhd") (create_response (codes "cppmhd") complaint)
    ≡ send (codes "cppmhd") complaint
send-create_response_example = send-create_response (codes "cppmhd") complaint refl

-- The demonstration server with the default error handler.
abbrev plain : Server
plain = record demo {
  error_handler = λ req sc e message. default_error_handler (codes "cppmhd") sc message;
}

send-default_error_handler_example :
    send (codes "cppmhd") (default_error_handler (codes "cppmhd") not_found (codes "gone"))
    ≡ record {
      status = not_found;
      headers = (content_type, text_html) ∷ (server_key, codes "cppmhd") ∷ [];
      bytes = lines (page (codes "cppmhd") not_found (codes "gone"));
      must_copy = true;
    }
send-default_error_handler_example =
    send-default_error_handler (codes "cppmhd") not_found (codes "gone")
