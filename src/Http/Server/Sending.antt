-- ===== src/Http/Server/Sending.antt =====
-- `createResponse` and `sendHttpResponsePtr` of lib/src/http.cc on a response that was sent before.
use cppmhd.Prelude.{
  ℕ, zero, suc, ◌≡◌, refl, Bool, true, false, [], ◌∷◌, Str, codes, ◌==◌, ltb, length, arith, ap,
  sym, ◌∙◌, Bool-cases, inl, inr,
}
use cppmhd.Entity.{
  Response, Headers, case_less, header_less, same_header, header_value, set_header, content_type,
}
use cppmhd.Http.Server.{set_if_empty, server_key, add_shared_headers, create_response, send}

case_less-same : (n : ℕ) (s : Str) → case_less n s s ≡ false
unfolding case_less
case_less-same zero [] = refl
case_less-same (suc n) [] = refl
case_less-same zero (x ∷ s) = refl
case_less-same (suc n) (x ∷ s) = ground (arith, case_less-same n s)

same_header-same : (k : Str) → same_header k k ≡ true
unfolding same_header header_less
same_header-same k = rw (case_less-same _ k)

header_value-set_header : (hs : Headers) (k v : Str) → header_value (set_header hs k v) k ≡ v
unfolding header_value set_header
header_value-set_header [] k v = rw (same_header-same k)
header_value-set_header ((k', w) ∷ hs) k v = ground (arith, header_value-set_header hs k v)

-- Writing a value that is not empty leaves no key empty that was not.
set_header-filled :
    (hs : Headers) (k v q : Str)
    → (length v == 0) ≡ false
    → (length (header_value hs q) == 0) ≡ false
    → (length (header_value (set_header hs k v) q) == 0) ≡ false
unfolding header_value set_header
set_header-filled [] k v q h e = absurd (ground (arith, e))
set_header-filled ((k', w) ∷ hs) k v q h e = ground (arith, set_header-filled hs k v q h)

set_if_empty-filled :
    (k v : Str) (hs : Headers)
    → (length v == 0) ≡ false
    → (length (header_value (set_if_empty k v hs) k) == 0) ≡ false
set_if_empty-filled k v hs h = elim (Bool-cases (length (header_value hs k) == 0)) [
  | inl e ↦ rw (e, header_value-set_header hs k v) h
  | inr e ↦ rw (e) e
]

set_if_empty-keeps :
    (k v q : Str) (hs : Headers)
    → (length v == 0) ≡ false
    → (length (header_value hs q) == 0) ≡ false
    → (length (header_value (set_if_empty k v hs) q) == 0) ≡ false
set_if_empty-keeps k v q hs h f = elim (Bool-cases (length (header_value hs k) == 0)) [
  | inl e ↦ rw (e) (set_header-filled hs k v q h f)
  | inr e ↦ rw (e) f
]

set_if_empty-same :
    (k v : Str) (hs : Headers)
    → (length (header_value hs k) == 0) ≡ false
    → set_if_empty k v hs ≡ hs
set_if_empty-same k v hs e = rw e

abbrev octet_stream : Str
octet_stream = codes "application/octet-stream"

-- The headers of a finished response, with a body or without.
abbrev finished_headers : Str → Bool → Headers → Headers
finished_headers project true hs =
    set_if_empty server_key project (set_if_empty content_type octet_stream hs)
finished_headers project false hs = set_if_empty server_key project hs

finished_headers_twice :
    (project : Str) (b : Bool) (hs : Headers)
    → (length project == 0) ≡ false
    → finished_headers project b (finished_headers project b hs) ≡ finished_headers project b hs
finished_headers_twice project true hs h =
    let typed = set_if_empty content_type octet_stream hs in
    let done = set_if_empty server_key project typed in
    ap (set_if_empty server_key project) (
      set_if_empty-same content_type octet_stream done (
        set_if_empty-keeps server_key project content_type typed h
          (set_if_empty-filled content_type octet_stream hs refl)))
    ∙ set_if_empty-same server_key project done (set_if_empty-filled server_key project typed h)
finished_headers_twice project false hs h =
    set_if_empty-same server_key project (set_if_empty server_key project hs)
      (set_if_empty-filled server_key project hs h)

create_response-headers :
    (project : Str) (r : Response) (b : Bool)
    → ltb 0 (length r.body.bytes) ≡ b
    → create_response project r ≡ record r { headers = finished_headers project b r.headers }
unfolding create_response add_shared_headers
create_response-headers project r true e = rw (create_response, e)
create_response-headers project r false e = rw (create_response, e)

create_response_twice :
    (project : Str) (r : Response)
    → (length project == 0) ≡ false
    → create_response project (create_response project r) ≡ create_response project r
create_response_twice project r h =
    let b = ltb 0 (length r.body.bytes) in
    let once = create_response-headers project r b refl in
    let done : Response = record r { headers = finished_headers project b r.headers } in
    ap (create_response project) once
    ∙ create_response-headers project done b refl
    ∙ ap (λ hs. record r { headers = hs }) (finished_headers_twice project b r.headers h)
    ∙ sym once

-- Finishing a response a second time changes nothing, if the server has a name: when a response that
-- is stored in a connection is sent again, the same is queued.
pub send-create_response :
    (project : Str) (r : Response)
    → (length project == 0) ≡ false
    → send project (create_response project r) ≡ send project r
unfolding send
send-create_response project r h =
    ap
      (λ (x : Response). record {
        status = x.sc;
        headers = x.headers;
        bytes = x.body.bytes;
        must_copy = x.body.owned;
      })
      (create_response_twice project r h)
