-- ===== src/Http/Connection/Start.antt =====
-- The first call of `MHDconnectionCB` for a request: it leaves no data state behind.
use cppmhd.Prelude.{
  ℕ, ◌≤◌, ◌≡◌, refl, inl, inr, Bool, true, none, some, leb, arith, Bool-cases, Option-cases,
}
use cppmhd.Router.Forward.{Outcome, answered, fault, exhausted}
use cppmhd.Entity.{initial, new_request}
use cppmhd.Http.Method.{parse_http_method}
use cppmhd.Http.Server.{Server, check_request}
use cppmhd.Http.Connection.{
  ConnectionObject, Call, Reaction, Result, reacted, crashed, connected, settle, forwarded,
  first_round, connection_cb,
}
use cppmhd.Http.Connection.Life.{rank, IsLive}

-- A result whose connection, if it leaves one, has seen no data.
abbrev is_fresh : Result → Bool
is_fresh crashed = true
is_fresh (reacted r) = elim r.con [ none ↦ true | some co ↦ leb (rank co.request.state) 1 ]

connected-fresh :
    (http : Server) (co : ConnectionObject) (ctrl left : ℕ)
    → co.request.state ≡ initial
    → is_fresh (connected http co ctrl left) ≡ true
unfolding connected
connected-fresh http co ctrl left h =
    ground (arith, Option-cases (http.on_connection ctrl co.request).1)

settle-fresh :
    (http : Server) (c : Call) (co : ConnectionObject) (o : Outcome)
    → co.request.state ≡ initial
    → is_fresh (settle http c co o) ≡ true
unfolding settle
settle-fresh http c co (answered a) h = elim (Option-cases a.handle) [
  | inl e ↦ ground (arith, e, h, Bool-cases a.tsr)
  | inr (ctrl, e) ↦
      let found : ConnectionObject = record co {
        request = record co.request { param = a.params };
      } in
      ground (arith, e, connected-fresh http found ctrl c.data_size h)
]
settle-fresh http c co fault h = refl
settle-fresh http c co exhausted h = refl

forwarded-fresh :
    (http : Server) (c : Call) (co : ConnectionObject)
    → co.request.state ≡ initial
    → is_fresh (forwarded http c co) ≡ true
unfolding forwarded
forwarded-fresh http c co h = settle-fresh http c co _ h

first_round-fresh : (http : Server) (c : Call) → is_fresh (first_round http c) ≡ true
unfolding first_round new_request
first_round-fresh http c = elim (Option-cases (parse_http_method c.method)) [
  | inl e ↦ rw (first_round, e)
  | inr (mtd, e) ↦
      let req = new_request c.url mtd in
      elim (Option-cases (check_request http req c.host_field c.version)) [
        | inl f ↦ rw (first_round, e, f) (forwarded-fresh http c _ refl)
        | inr (r, f) ↦ rw (first_round, e, f)
      ]
]

pub first_round-IsLive :
    (http : Server) (c : Call) (r : Reaction) (co : ConnectionObject)
    → connection_cb http none c ≡ reacted r
    → r.con ≡ some co
    → IsLive co
unfolding connection_cb
first_round-IsLive http c r co e f =
    let fresh : rank co.request.state ≤ 1 = ground (arith, first_round-fresh http c) in
    record { processed = λ g. ground arith; explained = λ g. ground arith }
