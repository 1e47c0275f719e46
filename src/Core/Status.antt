-- ===== src/Core/Status.antt =====
-- `HttpStatusCode` of lib/include/cppmhd/core.h and `dispatchErrorCode` of lib/src/utils.cc.
mod Phrases
use cppmhd.Prelude.{ℕ, List, [], ◌∷◌, Str, codes, ◌==◌, if◌then◌else◌}

-- The enumerators, named without their numbers.
pub data HttpStatusCode : Type 0 where
  continue : HttpStatusCode
  switching_protocol : HttpStatusCode
  processing : HttpStatusCode
  early_hints : HttpStatusCode
  ok : HttpStatusCode
  created : HttpStatusCode
  accepted : HttpStatusCode
  non_authoritative_infomation : HttpStatusCode
  no_content : HttpStatusCode
  reset_content : HttpStatusCode
  partial_content : HttpStatusCode
  multiple_choice : HttpStatusCode
  move_permanently : HttpStatusCode
  found : HttpStatusCode
  see_other : HttpStatusCode
  not_modified : HttpStatusCode
  use_proxy : HttpStatusCode
  temporary_redirect : HttpStatusCode
  permanent_redirect : HttpStatusCode
  bad_request : HttpStatusCode
  unauthorized : HttpStatusCode
  payment_required : HttpStatusCode
  forbidden : HttpStatusCode
  not_found : HttpStatusCode
  method_not_allowed : HttpStatusCode
  no_acceptable : HttpStatusCode
  proxy_authentication_required : HttpStatusCode
  request_timeout : HttpStatusCode
  conflict : HttpStatusCode
  gone : HttpStatusCode
  length_required : HttpStatusCode
  precondition_failed : HttpStatusCode
  payload_too_large : HttpStatusCode
  uri_too_long : HttpStatusCode
  unsupported_media_type : HttpStatusCode
  range_not_satisfiable : HttpStatusCode
  expectation_failed : HttpStatusCode
  ima_teapot : HttpStatusCode
  mis_directed_request : HttpStatusCode
  too_many_requests : HttpStatusCode
  internal_server_error : HttpStatusCode
  not_implemented : HttpStatusCode
  bad_gateway : HttpStatusCode
  service_unavailable : HttpStatusCode
  gateway_timeout : HttpStatusCode
  http_version_not_supported : HttpStatusCode
  variant_also_negotiates : HttpStatusCode

-- The value of an enumerator.
abbrev pub status_value : HttpStatusCode → ℕ
status_value continue = 100
status_value switching_protocol = 101
status_value processing = 102
status_value early_hints = 103
status_value ok = 200
status_value created = 201
status_value accepted = 202
status_value non_authoritative_infomation = 203
status_value no_content = 204
status_value reset_content = 205
status_value partial_content = 206
status_value multiple_choice = 300
status_value move_permanently = 301
status_value found = 302
status_value see_other = 303
status_value not_modified = 304
status_value use_proxy = 305
status_value temporary_redirect = 307
status_value permanent_redirect = 308
status_value bad_request = 400
status_value unauthorized = 401
status_value payment_required = 402
status_value forbidden = 403
status_value not_found = 404
status_value method_not_allowed = 405
status_value no_acceptable = 406
status_value proxy_authentication_required = 407
status_value request_timeout = 408
status_value conflict = 409
status_value gone = 410
status_value length_required = 411
status_value precondition_failed = 412
status_value payload_too_large = 413
status_value uri_too_long = 414
status_value unsupported_media_type = 415
status_value range_not_satisfiable = 416
status_value expectation_failed = 417
status_value ima_teapot = 418
status_value mis_directed_request = 421
status_value too_many_requests = 429
status_value internal_server_error = 500
status_value not_implemented = 501
status_value bad_gateway = 502
status_value service_unavailable = 503
status_value gateway_timeout = 504
status_value http_version_not_supported = 505
status_value variant_also_negotiates = 506

-- The phrases of the `switch`; a value outside the enumeration has the last one.
unfoldable pub phrase : HttpStatusCode → Str
phrase continue = codes "Continue"
phrase switching_protocol = codes "Switching Protocol"
phrase processing = codes "Processing"
phrase early_hints = codes "Early Hints"
phrase ok = codes "OK"
phrase created = codes "Created"
phrase accepted = codes "Accepted"
phrase non_authoritative_infomation = codes "Non-Authoritative Information"
phrase no_content = codes "No Content"
phrase reset_content = codes "Reset Content"
phrase partial_content = codes "Partial Content"
phrase multiple_choice = codes "Multiple Choice"
phrase move_permanently = codes "Moved Permanently"
phrase found = codes "Found"
phrase see_other = codes "See Other"
phrase not_modified = codes "Not Modified"
phrase use_proxy = codes "Use Proxy"
phrase temporary_redirect = codes "Temporary Redirect"
phrase permanent_redirect = codes "Permanent Redirect"
phrase bad_request = codes "Bad Request"
phrase unauthorized = codes "Unauthorized"
phrase payment_required = codes "Payment Required"
phrase forbidden = codes "Forbidden"
phrase not_found = codes "Not Found"
phrase method_not_allowed = codes "Method Not Allowed"
phrase no_acceptable = codes "Not Acceptable"
phrase proxy_authentication_required = codes "Proxy Authentication Required"
phrase request_timeout = codes "Request Timeout"
phrase conflict = codes "Conflict"
phrase gone = codes "Gone"
phrase length_required = codes "Length Required"
phrase precondition_failed = codes "Precondition Failed"
phrase payload_too_large = codes "Payload Too Large"
phrase uri_too_long = codes "URI Too Long"
phrase unsupported_media_type = codes "Unsupported Media Type"
phrase range_not_satisfiable = codes "Range Not Satisfiable"
phrase expectation_failed = codes "Expectation Failed"
phrase ima_teapot = codes "I'm a teapot"
phrase mis_directed_request = codes "Misdirected Request"
phrase too_many_requests = codes "Too Many Requests"
phrase internal_server_error = codes "Internal Server Error"
phrase not_implemented = codes "Not Implemented"
phrase bad_gateway = codes "Bad Gateway"
phrase service_unavailable = codes "Service Unavailable"
phrase gateway_timeout = codes "Gateway Timeout"
phrase http_version_not_supported = codes "HTTP Version Not Supported"
phrase variant_also_negotiates = codes "Variant Also Negotiates"

-- The enumerators in the order of their values.
abbrev pub statuses : List HttpStatusCode
statuses =
    continue ∷ switching_protocol ∷ processing ∷ early_hints ∷ ok ∷ created ∷ accepted
    ∷ non_authoritative_infomation ∷ no_content ∷ reset_content ∷ partial_content ∷ multiple_choice
    ∷ move_permanently ∷ found ∷ see_other ∷ not_modified ∷ use_proxy ∷ temporary_redirect
    ∷ permanent_redirect ∷ bad_request ∷ unauthorized ∷ payment_required ∷ forbidden ∷ not_found
    ∷ method_not_allowed ∷ no_acceptable ∷ proxy_authentication_required ∷ request_timeout
    ∷ conflict ∷ gone ∷ length_required ∷ precondition_failed ∷ payload_too_large ∷ uri_too_long
    ∷ unsupported_media_type ∷ range_not_satisfiable ∷ expectation_failed ∷ ima_teapot
    ∷ mis_directed_request ∷ too_many_requests ∷ internal_server_error ∷ not_implemented
    ∷ bad_gateway ∷ service_unavailable ∷ gateway_timeout ∷ http_version_not_supported
    ∷ variant_also_negotiates ∷ []

phrase_of : ℕ → List HttpStatusCode → Str
unfolding phrase
phrase_of sc [] = codes "Unknown Status Code"
phrase_of sc (s ∷ ss) = if status_value s == sc then phrase s else phrase_of sc ss

-- `dispatchErrorCode`: any value of the underlying type can be asked for.
unfoldable pub dispatch_error_code : ℕ → Str
unfolding phrase_of
dispatch_error_code sc = phrase_of sc statuses
