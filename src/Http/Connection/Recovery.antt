-- ===== src/Http/Connection/Recovery.antt =====
-- The recovery of `MHDconnectionCB` from an error in the upload.
use cppmhd.Prelude.{
  ◌≡◌, refl, true, false, Option, none, some, List, [], ◌∷◌, ◌==◌, ltb, arith, ◌∙◌, All, map, ℕ,
  Str, is_some, inl, inr, Option-cases,
}
use cppmhd.Entity.{Request, Response, rs_error}
use cppmhd.Http.Server.{Server}
use cppmhd.Http.Connection.{
  ConnectionObject, Call, Reaction, reacted, crashed, send_stored, error_recovery, waits, answers,
  connection_cb,
}
use cppmhd.Http.Connection.Rounds.{Life, Life-explained, next_round-state}

-- The connection that some later calls leave, one after the other, and what each of them leaves.
unfoldable pub calls :
    Server → ConnectionObject → List Call → Option (ConnectionObject × List Reaction)
calls http co [] = some (co, [])
calls http co (c ∷ cs) = elim (connection_cb http (some co) c) [
  | crashed ↦ none
  | reacted r ↦ elim r.con [
    | none ↦ none
    | some to ↦ elim (calls http to cs) [ none ↦ none | some (last, rs) ↦ some (last, r ∷ rs) ]
  ]
]

-- A call that keeps the connection, leaves none of its data and queues no response.
abbrev pub swallowed : ConnectionObject → Reaction
swallowed co = record { con = some co; left = 0; queued = none }

thrown_away :
    (http : Server) (co : ConnectionObject) (c : Call)
    → co.request.state ≡ rs_error
    → ltb 0 c.data_size ≡ true
    → connection_cb http (some co) c ≡ waits co 0
unfolding connection_cb error_recovery
thrown_away http co c h v =
    let some_data : (c.data_size == 0) ≡ false = ground arith in
    next_round-state http c co rs_error h ∙ rw some_data

answered_error :
    (http : Server) (co : ConnectionObject) (r : Response) (c : Call)
    → co.request.state ≡ rs_error
    → co.response ≡ some r
    → c.data_size ≡ 0
    → connection_cb http (some co) c ≡ answers http co r 0
unfolding connection_cb error_recovery send_stored
answered_error http co r c h e f = next_round-state http c co rs_error h ∙ ground (arith, e, f)

-- In the state of an upload error, with a response stored: however many calls still bring data, each
-- leaves none of it, queues nothing and keeps the connection as it is, and then a call without data
-- sends that response.
pub drain :
    (http : Server) (co : ConnectionObject) (r : Response) (cs : List Call) (c : Call)
    → co.request.state ≡ rs_error
    → co.response ≡ some r
    → All (λ d. ltb 0 d.data_size ≡ true) cs
    → c.data_size ≡ 0
    → (calls http co cs ≡ some (co, map (λ _. swallowed co) cs))
      × (connection_cb http (some co) c ≡ answers http co r 0)
unfolding calls
drain http co r [] c h e v f = (refl, answered_error http co r c h e f)
drain http co r (d ∷ cs) c h e v f =
    let (rest, last) = drain http co r cs c h e v.1 f in
    (rw (calls, thrown_away http co d h v.0, rest) refl, last)

-- If data processors stay in their place when they get data: after any calls that have ended in the
-- state of an upload error, there is a response such that, however many calls still bring data, each
-- of them leaves none of it, queues nothing and keeps the connection as it is, and then a call without
-- data sends that response.
pub Life-drain :
    (http : Server)
    (keeps : (pp : ℕ) (req : Request) (bytes : Option Str) (n : ℕ)
      → is_some (http.on_data pp req bytes n).0 ≡ true)
    (co : ConnectionObject) (cs : List Call) (c : Call)
    → Life http co
    → co.request.state ≡ rs_error
    → All (λ d. ltb 0 d.data_size ≡ true) cs
    → c.data_size ≡ 0
    → (r : Response) × (co.response ≡ some r)
      × (calls http co cs ≡ some (co, map (λ _. swallowed co) cs))
      × (connection_cb http (some co) c ≡ answers http co r 0)
Life-drain http keeps co cs c life h v f = elim (Option-cases co.response) [
  | inl e ↦ let stored = Life-explained http keeps co life h in absurd (ground (arith, stored, e))
  | inr (r, e) ↦ let (taken, last) = drain http co r cs c h e v f in (r, e, taken, last)
]
