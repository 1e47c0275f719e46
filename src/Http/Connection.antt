-- ===== src/Http/Connection.antt =====
-- `MHDconnectionCB` of lib/src/http.cc: the life of one request, call by call.
pub mod Life
pub mod Start
pub mod Rounds
pub mod Recovery
use cppmhd.Prelude.{
  ℕ, ◌-◌, ◌≡◌, ◌^◌, Bool, true, false, not, ◌&&◌, Option, none, some, List, [], ◌∷◌, ◌++◌, Str,
  codes, str_eq, ◌==◌, ltb, if◌then◌else◌, length,
}
use cppmhd.Core.{
  HttpMethod, get, method_index, HttpError, bad_http_method, data_in_get_request,
  data_processor_not_set, data_processor_return_error, router_not_found,
}
use cppmhd.Core.Status.{HttpStatusCode, bad_request, not_found, method_not_allowed}
use cppmhd.Router.Forward.{Outcome, answered, fault, exhausted, forward}
use cppmhd.Entity.{
  Request, Response, RequestState, initial, initial_complete, data_receiving, data_received,
  rs_error, new_request,
}
use cppmhd.Http.Method.{parse_http_method}
use cppmhd.Http.Server.{Server, Queued, send, create_response, check_request, tsr_response}

-- `ConnectionObject`
pub record ConnectionObject : Type 0 where
  pub request : Request
  pub response : Option Response
  pub ctrl : Option ℕ

-- The arguments of one call. `host_field` is the request's Host header as libmicrohttpd finds it.
pub record Call : Type 0 where
  pub url : Str
  pub method : Str
  pub version : Str
  pub host_field : Option Str
  pub bytes : Option Str
  pub data_size : ℕ

-- What a call leaves: `*con_cls`, `*dataSize` and the response that it has queued.
pub record Reaction : Type 0 where
  pub con : Option ConnectionObject
  pub left : ℕ
  pub queued : Option Queued

-- `crashed` is a null pointer that is used, or an assertion that fails.
pub data Result : Type 0 where
  reacted : Reaction → Result
  crashed : Result

-- `static_cast<size_t>(~0)`
abbrev pub parse_failed : ℕ
parse_failed = 2 ^ 64 - 1

abbrev pub waits : ConnectionObject → ℕ → Result
waits co left = reacted (record { con = some co; left = left; queued = none })

-- The first data for a processor changes the state.
abbrev pub begun : Request → Request
begun req = elim req.state [
  | RequestState.initial_complete ↦ record req { state = data_receiving }
  | _ ↦ req
]

abbrev pub no_data : Call → Bool
no_data c = elim c.bytes [ none ↦ c.data_size == 0 | some d ↦ false ]

module _ (http : Server) where
  -- The response is stored in the connection, and queued.
  abbrev pub answers : ConnectionObject → Response → ℕ → Result
  answers co r left = reacted (record {
    con = some (record co { response = some (create_response http.project r) });
    left = left;
    queued = some (send http.project r);
  })

  -- `sendHttpResponsePtr(conn, http, co->response)`
  unfoldable pub send_stored : ConnectionObject → ℕ → Result
  send_stored co left = elim co.response [ none ↦ crashed | some r ↦ answers co r left ]

  unfoldable pub not_found_message : Call → Str
  not_found_message c = c.method ++ (codes " to " ++ (c.url ++ codes " not found"))

  -- The route's controller sees the request first.
  unfoldable pub connected : ConnectionObject → ℕ → ℕ → Result
  connected co ctrl left =
      let (pp, resp) = http.on_connection ctrl co.request in
      let req : Request = record co.request { processor = pp } in
      elim resp [
        | some r ↦ answers (record co { request = req; ctrl = some ctrl }) r left
        | none ↦
            waits
              (record co { request = record req { state = initial_complete }; ctrl = some ctrl })
              left
      ]

  -- What the connection does with the router's answer.
  unfoldable pub settle : Call → ConnectionObject → Outcome → Result
  unfolding connected not_found_message
  settle c co (answered a) =
      let found = record co { request = record co.request { param = a.params } } in
      elim a.handle [
        | some ctrl ↦ connected found ctrl c.data_size
        | none ↦
            if a.tsr
            then answers found (tsr_response http found.request) c.data_size
            else answers found
                (http.error_handler (some found.request) not_found router_not_found
                  (not_found_message c))
                c.data_size
      ]
  settle c co fault = crashed
  settle c co exhausted = crashed

  -- The forwarding of a request that passed the check.
  unfoldable pub forwarded : Call → ConnectionObject → Result
  unfolding settle
  forwarded c co =
      settle c co (forward http.pcre http.trees co.request.mhd co.request.uri co.request.param)

  -- The first call for a request.
  unfoldable pub first_round : Call → Result
  unfolding forwarded
  first_round c = elim (parse_http_method c.method) [
    | none ↦ reacted (record {
      con = none;
      left = c.data_size;
      queued = some (
          send http.project (
            http.error_handler none method_not_allowed bad_http_method
              (codes "un-acceptable Http Method: " ++ c.method)));
    })
    | some mtd ↦
        let co : ConnectionObject = record {
          request = new_request c.url mtd;
          response = none;
          ctrl = none;
        } in
        elim (check_request http co.request c.host_field c.version) [
          | some r ↦ answers co r c.data_size
          | none ↦ forwarded c co
        ]
  ]

  abbrev with_state : RequestState → ConnectionObject → ConnectionObject
  with_state s co = record co { request = record co.request { state = s } }

  -- All upload data is thrown away; then the error response is sent.
  unfoldable pub error_recovery : Call → ConnectionObject → Result
  unfolding send_stored
  error_recovery c co = if c.data_size == 0 then send_stored co 0 else waits co 0

  -- The end of the upload is told to the data processor.
  unfoldable pub last_data : ConnectionObject → Result
  last_data co = elim co.request.processor [
    | none ↦ crashed
    | some pp ↦
        let (pp', size) = http.on_data pp co.request none 0 in
        waits (record co { request = record co.request { processor = pp'; state = data_received } })
          0
  ]

  -- The controller sees the whole request, and may set the response.
  unfoldable pub controlled : ConnectionObject → ConnectionObject
  controlled co = elim co.ctrl [
    | none ↦ co
    | some ctrl ↦
        let (pp, resp) = http.on_request ctrl co.request co.response in
        record co { request = record co.request { processor = pp }; response = resp }
  ]

  unfoldable pub finish_request : ConnectionObject → Result
  unfolding send_stored controlled
  finish_request co = elim (controlled co).response [
    | none ↦ waits (controlled co) 0
    | some r ↦ send_stored (controlled co) 0
  ]

  -- An error that the server finds in the upload: the rest of the data will be thrown away.
  unfoldable pub upload_error :
      ConnectionObject → HttpStatusCode → HttpError → Str → ConnectionObject
  upload_error co sc error message = record co {
    request = record co.request { state = rs_error };
    response = some (http.error_handler (some co.request) sc error message);
  }

  -- Upload data for a data processor, which says how much of it it has taken.
  unfoldable pub process_data : Call → ConnectionObject → ℕ → Result
  unfolding upload_error
  process_data c co pp =
      let (pp', size) = http.on_data pp (begun co.request) c.bytes c.data_size in
      let co' : ConnectionObject = record co {
        request = record (begun co.request) { processor = pp' };
      } in
      if size == parse_failed
      then waits
          (upload_error co' bad_request data_processor_return_error (
            codes "Data Processor return an error in "
            ++ (c.method ++ (codes " Request to " ++ c.url))))
          0
      else if ltb c.data_size size
      then waits co' 0
      else waits co' (c.data_size - size)

  -- A call with upload data.
  unfoldable pub upload : Call → ConnectionObject → Result
  unfolding process_data
  upload c co =
      if method_index co.request.mhd == method_index get
      then waits
          (upload_error co bad_request data_in_get_request
            (codes "Data in GET Request to " ++ c.url))
          0
      else elim co.request.processor [
        | none ↦
            waits
              (upload_error co method_not_allowed data_processor_not_set (
                codes "Data Processor not set in "
                ++ (c.method ++ (codes " Request to " ++ c.url))))
              0
        | some pp ↦ process_data c co pp
      ]

  -- A later call. Without an error, the first call must not have answered already.
  unfoldable pub next_round : Call → ConnectionObject → Result
  unfolding error_recovery last_data finish_request upload
  next_round c co =
      let open_round =
        if no_data c
        then elim co.request.state [
          | RequestState.data_receiving ↦ last_data co
          | _ ↦ finish_request co
        ]
        else upload c co in
      elim co.request.state [
        | RequestState.rs_error ↦ error_recovery c co
        | RequestState.initial ↦ if http.pcre.asserts then crashed else open_round
        | _ ↦ open_round
      ]

  -- `MHDconnectionCB`
  unfoldable pub connection_cb : Option ConnectionObject → Call → Result
  unfolding first_round next_round
  connection_cb none c = first_round c
  connection_cb (some co) c = next_round c co
