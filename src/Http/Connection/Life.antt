-- ===== src/Http/Connection/Life.antt =====
-- The states that a connection of `MHDconnectionCB` can get into.
use cppmhd.Prelude.{
  ℕ, ◌≤◌, ◌≡◌, refl, ◌≢◌, ◌-◌, inl, inr, true, Option, none, some, ◌++◌, Str, ◌==◌, ltb, is_some,
  arith, codes, Bool-cases, Option-cases, sym, ◌∙◌, subst,
}
use cppmhd.Core.{
  data_in_get_request, data_processor_not_set, data_processor_return_error, HttpError, get,
  method_index,
}
use cppmhd.Core.Status.{HttpStatusCode, bad_request, method_not_allowed}
use cppmhd.Entity.{
  Request, Response, RequestState, initial, initial_complete, data_receiving, data_received,
  rs_error,
}
use cppmhd.Http.Server.{Server, send, create_response}
use cppmhd.Http.Connection.{
  begun, ConnectionObject, Call, Reaction, Result, reacted, parse_failed, send_stored, waits,
  answers, last_data, controlled, finish_request, upload_error, process_data, upload,
}

abbrev pub rank : RequestState → ℕ
rank initial = 0
rank initial_complete = 1
rank data_receiving = 2
rank data_received = 3
rank rs_error = 4

rank-le-4 : (s : RequestState) → rank s ≤ 4
rank-le-4 initial = omega arith
rank-le-4 initial_complete = omega arith
rank-le-4 data_receiving = omega arith
rank-le-4 data_received = omega arith
rank-le-4 rs_error = omega arith

-- What the later rounds rely on: while data is coming in there is a processor for it, and an error
-- has its response.
pub record IsLive (co : ConnectionObject) : Type 0 where
  pub processed : co.request.state ≡ data_receiving → is_some co.request.processor ≡ true
  pub explained : co.request.state ≡ rs_error → is_some co.response ≡ true

-- A round that ends well: with a live connection that is no earlier in its life, and no more data
-- left than there was.
pub record Goes (from : ConnectionObject) (size : ℕ) (r : Result) : Type 0 where
  pub reaction : Reaction
  pub to : ConnectionObject
  pub result : r ≡ reacted reaction
  pub con : reaction.con ≡ some to
  pub live : IsLive to
  pub onward : rank from.request.state ≤ rank to.request.state
  pub bounded : reaction.left ≤ size

pub Goes-same :
    {from : ConnectionObject} {size : ℕ} {r s : Result}
    → r ≡ s
    → Goes from size s
    → Goes from size r
Goes-same {from} {size} e g = subst (Goes from size) (sym e) g

pub waits-Goes :
    (from to : ConnectionObject) (size left : ℕ)
    → IsLive to
    → rank from.request.state ≤ rank to.request.state
    → left ≤ size
    → Goes from size (waits to left)
waits-Goes from to size left v h k = record {
  reaction = record { con = some to; left = left; queued = none };
  to = to;
  result = refl;
  con = refl;
  live = v;
  onward = h;
  bounded = k;
}

pub answers-Goes :
    (http : Server) (from co : ConnectionObject) (r : Response) (size left : ℕ)
    → (co.request.state ≡ data_receiving → is_some co.request.processor ≡ true)
    → rank from.request.state ≤ rank co.request.state
    → left ≤ size
    → Goes from size (answers http co r left)
answers-Goes http from co r size left v h k = record {
  reaction = record {
    con = some (record co { response = some (create_response http.project r) });
    left = left;
    queued = some (send http.project r);
  };
  to = record co { response = some (create_response http.project r) };
  result = refl;
  con = refl;
  live = record { processed = v; explained = λ e. refl };
  onward = h;
  bounded = k;
}

begun-rank : (req : Request) → rank req.state ≤ rank (begun req).state
begun-rank req = ground arith

begun-error : (req : Request) → req.state ≢ rs_error → (begun req).state ≢ rs_error
begun-error req h e = ground arith

module _ (http : Server)
    (keeps : (pp : ℕ) (req : Request) (bytes : Option Str) (n : ℕ)
      → is_some (http.on_data pp req bytes n).0 ≡ true) where
  controlled-state : (co : ConnectionObject) → (controlled http co).request.state ≡ co.request.state
  unfolding controlled
  controlled-state co = ground (arith, Option-cases co.ctrl)

  -- With no error and no data coming in, the controller answers or the connection waits.
  pub finish-Goes :
      (co : ConnectionObject) (size : ℕ)
      → co.request.state ≢ data_receiving
      → co.request.state ≢ rs_error
      → Goes co size (finish_request http co)
  unfolding finish_request send_stored
  finish-Goes co size h k =
      let done : ConnectionObject = controlled http co in
      let same = controlled-state co in
      let calm : done.request.state ≡ data_receiving → is_some done.request.processor ≡ true =
        λ e. absurd (h (sym same ∙ e)) in
      let rank_same : rank co.request.state ≤ rank done.request.state =
        subst (λ s. rank co.request.state ≤ rank s) (sym same) (omega arith) in
      elim (Option-cases done.response) [
        | inl e ↦ Goes-same (ground (arith, e)) (
            waits-Goes co done size 0
              (record { processed = calm; explained = λ f. absurd (k (sym same ∙ f)) }) rank_same
              (omega arith))
        | inr (r, e) ↦
            Goes-same {s = answers http done r 0} (ground (arith, e))
              (answers-Goes http co done r size 0 calm rank_same (omega arith))
      ]

  pub last-Goes :
      (co : ConnectionObject) (size pp : ℕ)
      → co.request.state ≡ data_receiving
      → co.request.processor ≡ some pp
      → Goes co size (last_data http co)
  unfolding last_data
  last-Goes co size pp h e =
      let after : ConnectionObject = record co {
        request = record co.request {
          processor = (http.on_data pp co.request none 0).0;
          state = data_received;
        };
      } in
      Goes-same {s = waits after 0} (ground (arith, e)) (
        waits-Goes co after size 0 (record { processed = λ f. cc; explained = λ f. cc })
          (subst (λ s. rank s ≤ 3) (sym h) (omega arith)) (omega arith))

  error-Goes :
      (from co : ConnectionObject) (sc : HttpStatusCode) (err : HttpError) (message : Str)
      (size : ℕ)
      → Goes from size (waits (upload_error http co sc err message) 0)
  unfolding upload_error
  error-Goes from co sc err message size =
      waits-Goes from _ size 0 (record { processed = λ e. cc; explained = λ e. refl })
        (rank-le-4 from.request.state) (omega arith)

  -- Data in a processor's hands.
  process-Goes :
      (c : Call) (co : ConnectionObject) (pp : ℕ)
      → co.request.state ≢ rs_error
      → Goes co c.data_size (process_data http c co pp)
  unfolding process_data
  process-Goes c co pp h =
      let req : Request = begun co.request in
      let (pp', size) = http.on_data pp req c.bytes c.data_size in
      let after : ConnectionObject = record co { request = record req { processor = pp' } } in
      let live : IsLive after = record {
        processed = λ e. keeps pp req c.bytes c.data_size;
        explained = λ e. absurd (begun-error co.request h e);
      } in
      elim (Bool-cases (size == parse_failed)) [
        | inl e ↦
            Goes-same
              {s = waits
                (upload_error http after bad_request data_processor_return_error (
                  codes "Data Processor return an error in "
                  ++ (c.method ++ (codes " Request to " ++ c.url))))
                0}
              (rw (process_data, e)) (error-Goes co after _ _ _ c.data_size)
        | inr e ↦ elim (Bool-cases (ltb c.data_size size)) [
          | inl f ↦
              Goes-same {s = waits after 0} (rw (process_data, e, f))
                (waits-Goes co after c.data_size 0 live (begun-rank co.request) (omega arith))
          | inr f ↦ Goes-same {s = waits after (c.data_size - size)} (rw (process_data, e, f)) (
              waits-Goes co after c.data_size (c.data_size - size) live (begun-rank co.request)
                (omega arith))
        ]
      ]

  pub upload-Goes :
      (c : Call) (co : ConnectionObject)
      → co.request.state ≢ rs_error
      → Goes co c.data_size (upload http c co)
  unfolding upload
  upload-Goes c co h = elim (Bool-cases (method_index co.request.mhd == method_index get)) [
    | inl e ↦
        Goes-same
          {s = waits
            (upload_error http co bad_request data_in_get_request
              (codes "Data in GET Request to " ++ c.url))
            0}
          (ground (arith, e)) (error-Goes co co _ _ _ c.data_size)
    | inr e ↦ elim (Option-cases co.request.processor) [
      | inl f ↦
          Goes-same
            {s = waits
              (upload_error http co method_not_allowed data_processor_not_set (
                codes "Data Processor not set in "
                ++ (c.method ++ (codes " Request to " ++ c.url))))
              0}
            (ground (arith, e, f)) (error-Goes co co _ _ _ c.data_size)
      | inr (pp, f) ↦
          Goes-same {s = process_data http c co pp} (ground (arith, e, f)) (process-Goes c co pp h)
    ]
  ]
