-- ===== src/Controller/Uploads.antt =====
-- A form processor as the data processor of a connection: lib/src/controller.cc under
-- `MHDconnectionCB` of lib/src/http.cc.
use cppmhd.Prelude.{
  ℕ, ◌≡◌, ◌≢◌, ◌<◌, ◌⊎◌, inl, inr, refl, Bool, true, false, Option, some, List, ◌++◌, Str, codes,
  ◌==◌, ltb, ◌-◌, ◌∙◌, Option-cases, arith, All, map, sym,
}
use cppmhd.Core.{method_index, get, data_processor_return_error}
use cppmhd.Core.Status.{bad_request}
use cppmhd.Entity.{
  Response, RequestState, rs_error, initial, initial_complete, data_receiving, data_received,
}
use cppmhd.Http.Server.{Server}
use cppmhd.Http.Connection.{
  ConnectionObject, Call, parse_failed, waits, answers, begun, no_data, process_data, upload,
  upload_error, next_round, connection_cb,
}
use cppmhd.Http.Connection.Rounds.{next_round-state, Unanswered, calm-round}
use cppmhd.Http.Connection.Recovery.{calls, swallowed, drain}
use cppmhd.Controller.Form.{FormCall, Parsing, FormProcessor, on_data}
use cppmhd.Controller.Form.Refusals.{Aborts, Whole, on_data-ends}

-- The connection whose processor has taken some data.
abbrev pub taken : Server → Call → ConnectionObject → ℕ → ConnectionObject
taken http c co id = record co {
  request = record (begun co.request) {
    processor = (http.on_data id (begun co.request) c.bytes c.data_size).0;
  };
}

-- The response to an upload whose processor returns the error.
abbrev pub refusal : Server → Call → ConnectionObject → Response
refusal http c co =
    http.error_handler (some co.request) bad_request data_processor_return_error
      (codes "Data Processor return an error in " ++ (c.method ++ (codes " Request to " ++ c.url)))

-- The connection after that error.
abbrev pub failed : Server → Call → ConnectionObject → ConnectionObject
failed http c co = record co {
  request = record co.request { state = rs_error };
  response = some (refusal http c co);
}

module _ (http : Server) (c : Call) (co : ConnectionObject) (id : ℕ) where
  process_data-taken :
      c.data_size < parse_failed
      → (http.on_data id (begun co.request) c.bytes c.data_size).1 ≡ c.data_size
      → process_data http c co id ≡ waits (taken http c co id) 0
  unfolding process_data
  process_data-taken lt e =
      let whole : (c.data_size == parse_failed) ≡ false = ground (arith, lt) in
      let most : ltb c.data_size c.data_size ≡ false = ground arith in
      let none_left : c.data_size - c.data_size ≡ 0 = omega arith in
      rw (process_data, e, whole, most, none_left) refl

  process_data-failed :
      (http.on_data id (begun co.request) c.bytes c.data_size).1 ≡ parse_failed
      → process_data http c co id ≡ waits (failed http c (taken http c co id)) 0
  unfolding process_data upload_error
  process_data-failed e = rw (process_data, e) refl

data_round :
    (http : Server) (c : Call) (co : ConnectionObject)
    → Unanswered http co
    → co.request.state ≢ rs_error
    → no_data c ≡ false
    → next_round http c co ≡ upload http c co
data_round http c co u h e = at co.request.state refl h
  where
    at :
        (s : RequestState)
        → co.request.state ≡ s
        → s ≢ rs_error
        → next_round http c co ≡ upload http c co
    at rs_error f h = absurd (h refl)
    at initial f h =
        calm-round http c co u (λ g. let k = sym f ∙ g in cc) (λ g. let k = sym f ∙ g in cc)
        ∙ rw e refl
    at initial_complete f h = next_round-state http c co initial_complete f ∙ rw e refl
    at data_receiving f h = next_round-state http c co data_receiving f ∙ rw e refl
    at data_received f h = next_round-state http c co data_received f ∙ rw e refl

processor_round :
    (http : Server) (c : Call) (co : ConnectionObject) (id : ℕ)
    → Unanswered http co
    → co.request.state ≢ rs_error
    → method_index co.request.mhd ≢ method_index get
    → co.request.processor ≡ some id
    → 0 < c.data_size
    → connection_cb http (some co) c ≡ process_data http c co id
unfolding connection_cb upload
processor_round http c co id u h m p lt =
    let more : no_data c ≡ false = ground (arith, lt, Option-cases c.bytes) in
    let posted : (method_index co.request.mhd == method_index get) ≡ false = ground (arith, m) in
    data_round http c co u h more ∙ ground (arith, posted, p)

-- The response becomes an error with status 400, which is sent when the rest of the data, however
-- much, has been thrown away.
pub record IsRefused (http : Server) (c : Call) (from to : ConnectionObject) : Type 0 where
  pub now : connection_cb http (some from) c ≡ waits (failed http c to) 0
  pub later :
      (cs : List Call) (last : Call)
      → All (λ d. ltb 0 d.data_size ≡ true) cs
      → last.data_size ≡ 0
      → (calls http (failed http c to) cs
          ≡ some (failed http c to, map (λ _. swallowed (failed http c to)) cs))
        × (connection_cb http (some (failed http c to)) last
            ≡ answers http (failed http c to) (refusal http c to) 0)

-- A form whose data comes in calls of `MHDconnectionCB`, with the form processor as the data processor
-- `id` of its connection. Either the processor takes all of the call's data, after the controller has
-- accepted every piece of it; or the response becomes an error with status 400, which is sent when
-- the rest of the data, however much, has been thrown away. If the controller refuses a piece, it is
-- the second. The data of a call is shorter than the number that stands for the error, and if the
-- build has assertions, the first call has not answered the request at once.
pub connection_cb-form :
    {P : Type 0} (post_process : P → Option Str → ℕ → Parsing P)
    (accepts : List FormCall → FormCall → Bool) (fp : FormProcessor P) (http : Server) (c : Call)
    (co : ConnectionObject) (id : ℕ)
    → Unanswered http co
    → co.request.state ≢ rs_error
    → method_index co.request.mhd ≢ method_index get
    → co.request.processor ≡ some id
    → 0 < c.data_size
    → c.data_size < parse_failed
    → Aborts (post_process fp.pp c.bytes c.data_size)
    → let (n, fp') = on_data post_process accepts c.bytes c.data_size fp in
      let to = taken http c co id in
      (http.on_data id (begun co.request) c.bytes c.data_size).1 ≡ n
      → ((connection_cb http (some co) c ≡ waits to 0)
          × Whole post_process accepts fp.told fp'.told)
        ⊎ IsRefused http c co to
connection_cb-form post_process accepts fp http c co id u h m p lt below a same =
    let to = taken http c co id in
    let start = processor_round http c co id u h m p lt in
    let n = (on_data post_process accepts c.bytes c.data_size fp).0 in
    let fails : n ≡ parse_failed → IsRefused http c co to = λ e. record {
      now = start ∙ process_data-failed http c co id (same ∙ e);
      later =
          λ cs last v z. drain http (failed http c to) (refusal http c to) cs last refl refl v z;
    } in
    elim (on_data-ends post_process accepts c.bytes c.data_size fp lt a) [
      | inl (w, inl e) ↦ inl (start ∙ process_data-taken http c co id below (same ∙ e), w)
      | inl (w, inr e) ↦ inr (fails e)
      | inr (s, e) ↦ inr (fails e)
    ]
