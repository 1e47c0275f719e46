-- ===== src/Core/Status/Phrases.antt =====
-- `dispatchErrorCode` of lib/src/utils.cc on the statuses of the enumeration.
use cppmhd.Prelude.{◌≡◌, refl}
use cppmhd.Core.Status.{HttpStatusCode, status_value, phrase, dispatch_error_code}
use cppmhd.Core.Status.{
  continue, switching_protocol, processing, early_hints, ok, created, accepted,
  non_authoritative_infomation, no_content, reset_content, partial_content, multiple_choice,
  move_permanently, found, see_other, not_modified, use_proxy, temporary_redirect,
  permanent_redirect, bad_request, unauthorized, payment_required, forbidden, not_found,
  method_not_allowed, no_acceptable, proxy_authentication_required, request_timeout, conflict, gone,
  length_required, precondition_failed, payload_too_large, uri_too_long, unsupported_media_type,
  range_not_satisfiable, expectation_failed, ima_teapot, mis_directed_request, too_many_requests,
  internal_server_error, not_implemented, bad_gateway, service_unavailable, gateway_timeout,
  http_version_not_supported, variant_also_negotiates,
}

-- The phrase found for the number of a status of the enumeration is the one of that status.
dispatch-value : (s : HttpStatusCode) → dispatch_error_code (status_value s) ≡ phrase s
unfolding dispatch_error_code
dispatch-value continue = refl
dispatch-value switching_protocol = refl
dispatch-value processing = refl
dispatch-value early_hints = refl
dispatch-value ok = refl
dispatch-value created = refl
dispatch-value accepted = refl
dispatch-value non_authoritative_infomation = refl
dispatch-value no_content = refl
dispatch-value reset_content = refl
dispatch-value partial_content = refl
dispatch-value multiple_choice = refl
dispatch-value move_permanently = refl
dispatch-value found = refl
dispatch-value see_other = refl
dispatch-value not_modified = refl
dispatch-value use_proxy = refl
dispatch-value temporary_redirect = refl
dispatch-value permanent_redirect = refl
dispatch-value bad_request = refl
dispatch-value unauthorized = refl
dispatch-value payment_required = refl
dispatch-value forbidden = refl
dispatch-value not_found = refl
dispatch-value method_not_allowed = refl
dispatch-value no_acceptable = refl
dispatch-value proxy_authentication_required = refl
dispatch-value request_timeout = refl
dispatch-value conflict = refl
dispatch-value gone = refl
dispatch-value length_required = refl
dispatch-value precondition_failed = refl
dispatch-value payload_too_large = refl
dispatch-value uri_too_long = refl
dispatch-value unsupported_media_type = refl
dispatch-value range_not_satisfiable = refl
dispatch-value expectation_failed = refl
dispatch-value ima_teapot = refl
dispatch-value mis_directed_request = refl
dispatch-value too_many_requests = refl
dispatch-value internal_server_error = refl
dispatch-value not_implemented = refl
dispatch-value bad_gateway = refl
dispatch-value service_unavailable = refl
dispatch-value gateway_timeout = refl
dispatch-value http_version_not_supported = refl
dispatch-value variant_also_negotiates = refl
