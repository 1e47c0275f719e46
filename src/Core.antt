-- ===== src/Core.antt =====
-- Shared vocabulary: lib/include/cppmhd/core.h, the HttpError of lib/include/cppmhd/app.h, and the
-- method's formatter of lib/src/format.h.
pub mod Status
use cppmhd.Prelude.{ℕ, ◌≡◌, Str, codes}

pub data HttpMethod : Type 0 where
  get head post put delete options connect trace patch : HttpMethod

-- The enumerators as numbers, by which methods are compared.
abbrev pub method_index : HttpMethod → ℕ
method_index get = 0
method_index head = 1
method_index post = 2
method_index put = 3
method_index delete = 4
method_index options = 5
method_index connect = 6
method_index trace = 7
method_index patch = 8

-- The formatter of `HttpMethod`; libmicrohttpd's method names are the same words.
abbrev pub format_method : HttpMethod → Str
format_method get = codes "GET"
format_method head = codes "HEAD"
format_method post = codes "POST"
format_method put = codes "PUT"
format_method delete = codes "DELETE"
format_method options = codes "OPTIONS"
format_method connect = codes "CONNECT"
format_method trace = codes "TRACE"
format_method patch = codes "PATCH"

pub data HttpError : Type 0 where
  ok_error : HttpError
  data_in_get_request data_processor_not_set data_processor_return_error : HttpError
  bad_http_method bad_http_version : HttpError
  router_not_found tsr_found host_field_incorrect : HttpError

-- `CPPMHD_Error`
pub data CppmhdError : Type 0 where
  cppmhd_ok cppmhd_listen_address_error cppmhd_listen_failed : CppmhdError
  cppmhd_router_tree_build_failed : CppmhdError
