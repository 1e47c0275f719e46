-- ===== src/Http/Server.antt =====
-- `HttpImplement` of lib/src/http.h and lib/src/http.cc as its callbacks use it: what the server
-- holds, what the application supplies, and how a response is finished.
pub mod Sending
pub mod ErrorPage
use cppmhd.Prelude.{
  ℕ, Bool, Option, none, some, List, ◌++◌, Str, codes, str_eq, ◌==◌, ltb, if◌then◌else◌, length,
}
use cppmhd.Core.{HttpError, bad_http_version, host_field_incorrect, tsr_found}
use cppmhd.Core.Status.{HttpStatusCode, bad_request, http_version_not_supported, move_permanently}
use cppmhd.Utils.Regex.{Pcre}
use cppmhd.Router.Forward.{RouterTrees}
use cppmhd.Entity.{Request, Response, Headers, header_value, set_header, header, content_type}

-- `project` is PROJECT_SERVER_HEADER of the generated configuration. Controllers, data processors
-- and the error handler are the application's. Of the request that it is given a callback can change
-- the data processor alone, which is its first result. The second is the response that it leaves, or
-- the size that `onData` returns. The `std::function` of the error handler may return null by its
-- type; `error_handler` stands for one that does not, as the program's only one, `defaultEH`.
pub record Server : Type 0 where
  pub pcre : Pcre
  pub trees : List RouterTrees
  pub host : Str
  pub project : Str
  pub error_handler : Option Request → HttpStatusCode → HttpError → Str → Response
  pub on_connection : ℕ → Request → Option ℕ × Option Response
  pub on_request : ℕ → Request → Option Response → Option ℕ × Option Response
  pub on_data : ℕ → Request → Option Str → ℕ → Option ℕ × ℕ

-- A response as it is handed to `MHD_queue_response`, and how libmicrohttpd takes the bytes.
pub record Queued : Type 0 where
  pub status : HttpStatusCode
  pub headers : Headers
  pub bytes : Str
  pub must_copy : Bool

abbrev pub set_if_empty : Str → Str → Headers → Headers
set_if_empty key value hs =
    if length (header_value hs key) == 0 then set_header hs key value else hs

abbrev pub server_key : Str
server_key = codes "Server"

-- `addSharedHeaders`
unfoldable pub add_shared_headers : Str → Response → Response
add_shared_headers project r = record r { headers = set_if_empty server_key project r.headers }

-- `createResponse`: a body gets a type, and every response the server's name.
unfoldable pub create_response : Str → Response → Response
unfolding add_shared_headers
create_response project r = add_shared_headers project (
    if ltb 0 (length r.body.bytes)
    then record r {
      headers = set_if_empty content_type (codes "application/octet-stream") r.headers;
    }
    else r)

-- `sendHttpResponsePtr`
unfoldable pub send : Str → Response → Queued
unfolding create_response
send project r =
    let r' = create_response project r in
    record {
      status = r'.sc;
      headers = r'.headers;
      bytes = r'.body.bytes;
      must_copy = r'.body.owned;
    }

-- `checkRequest`: the Host field, if the server has a name, and the version.
unfoldable pub check_request : Server → Request → Option Str → Str → Option Response
check_request http req host_field version =
    let versioned =
      if str_eq version (codes "HTTP/1.1")
      then none
      else some (
          http.error_handler (some req) http_version_not_supported bad_http_version (
            codes "Bad HTTP Version "
            ++ (version ++ codes ". HTTP1/1 is the only acceptable version"))) in
    let refused = some (
      http.error_handler (some req) bad_request host_field_incorrect
        (codes "Host Field Not Set Correctly")) in
    if length http.host == 0 then versioned else elim host_field [
      | none ↦ refused
      | some h ↦ if str_eq h http.host then versioned else refused
    ]

-- `sendTSR` up to the sending: a redirect to the path with a slash more.
unfoldable pub tsr_response : Server → Request → Response
tsr_response http req =
    let next = req.uri ++ codes "/" in
    header (codes "Location") next (
      http.error_handler (some req) move_permanently tsr_found
        (codes "<a href='" ++ (next ++ codes "'>Redirecting...</a>")))
