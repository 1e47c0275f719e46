-- ===== src/Http/Connection/Rounds.antt =====
-- Whole lives of connections: every call of `MHDconnectionCB` after the first.
use cppmhd.Prelude.{
  ℕ, ◌≤◌, ◌≡◌, refl, ◌≢◌, inl, inr, true, Option, none, some, Str, ◌==◌, if◌then◌else◌, is_some,
  arith, ap, ◌∙◌, false, Bool-cases, Option-cases, subst,
}
use cppmhd.Entity.{
  Request, RequestState, initial, initial_complete, data_receiving, data_received, rs_error,
}
use cppmhd.Http.Server.{Server}
use cppmhd.Http.Connection.{
  ConnectionObject, Call, Reaction, Result, reacted, crashed, send_stored, error_recovery, waits,
  answers, no_data, last_data, finish_request, upload, next_round, connection_cb,
}
use cppmhd.Http.Connection.Life.{
  rank, IsLive, Goes, Goes-same, waits-Goes, answers-Goes, finish-Goes, last-Goes, upload-Goes,
}
use cppmhd.Http.Connection.Start.{first_round-IsLive}

-- A connection after some calls, the first of which has left it.
pub data Life (http : Server) : ConnectionObject → Type 0 where
  first :
      (c : Call) (r : Reaction) (co : ConnectionObject)
      → connection_cb http none c ≡ reacted r
      → r.con ≡ some co
      → Life http co
  next :
      (c : Call) (r : Reaction) (co to : ConnectionObject)
      → Life http co
      → connection_cb http (some co) c ≡ reacted r
      → r.con ≡ some to
      → Life http to

-- The round that a state calls for.
abbrev pub round_of : Server → Call → ConnectionObject → RequestState → Result
round_of http c co s =
    let open_round =
      if no_data c
      then elim s [ RequestState.data_receiving ↦ last_data http co | _ ↦ finish_request http co ]
      else upload http c co in
    elim s [
      | RequestState.rs_error ↦ error_recovery http c co
      | RequestState.initial ↦ if http.pcre.asserts then crashed else open_round
      | _ ↦ open_round
    ]

pub next_round-state :
    (http : Server) (c : Call) (co : ConnectionObject) (s : RequestState)
    → co.request.state ≡ s
    → next_round http c co ≡ round_of http c co s
unfolding next_round
next_round-state http c co s e = ap (round_of http c co) e

-- The assertion of a later call: the first has not answered the request.
abbrev pub Unanswered : Server → ConnectionObject → Type 0
Unanswered http co = http.pcre.asserts ≡ true → co.request.state ≢ initial

pub calm-round :
    (http : Server) (c : Call) (co : ConnectionObject)
    → Unanswered http co
    → co.request.state ≢ data_receiving
    → co.request.state ≢ rs_error
    → next_round http c co ≡ (if no_data c then finish_request http co else upload http c co)
calm-round http c co u h k = calm_at co.request.state refl h k
  where
    calm_at :
        (s : RequestState)
        → co.request.state ≡ s
        → s ≢ data_receiving
        → s ≢ rs_error
        → next_round http c co ≡ (if no_data c then finish_request http co else upload http c co)
    calm_at rs_error e h k = absurd (k refl)
    calm_at data_receiving e h k = absurd (h refl)
    calm_at initial e h k =
        let off : http.pcre.asserts ≡ false = elim (Bool-cases http.pcre.asserts) [
          | inl f ↦ absurd (u f e)
          | inr f ↦ f
        ] in
        next_round-state http c co initial e ∙ rw off refl
    calm_at initial_complete e h k = next_round-state http c co initial_complete e
    calm_at data_received e h k = next_round-state http c co data_received e

module _ (http : Server)
    (keeps : (pp : ℕ) (req : Request) (bytes : Option Str) (n : ℕ)
      → is_some (http.on_data pp req bytes n).0 ≡ true) where
  recovery-Goes :
      (c : Call) (co : ConnectionObject)
      → co.request.state ≡ rs_error
      → is_some co.response ≡ true
      → Goes co c.data_size (error_recovery http c co)
  unfolding error_recovery send_stored
  recovery-Goes c co e v = elim (Bool-cases (c.data_size == 0)) [
    | inl f ↦ elim (Option-cases co.response) [
      | inl g ↦ absurd (ground (arith, v, g))
      | inr (r, g) ↦
          Goes-same {s = answers http co r 0} (ground (arith, f, g))
            (answers-Goes http co co r c.data_size 0 (λ h. cc) (omega arith) (omega arith))
    ]
    | inr f ↦ Goes-same {s = waits co 0} (ground (arith, f)) (
        waits-Goes co co c.data_size 0 (record { processed = λ h. cc; explained = λ h. v })
          (omega arith) (omega arith))
  ]

  calm-Goes :
      (c : Call) (co : ConnectionObject)
      → Unanswered http co
      → co.request.state ≢ data_receiving
      → co.request.state ≢ rs_error
      → Goes co c.data_size (next_round http c co)
  calm-Goes c co u h k = elim (Bool-cases (no_data c)) [
    | inl e ↦
        Goes-same {s = finish_request http co} (ground (arith, calm-round http c co u h k))
          (finish-Goes http keeps co c.data_size h k)
    | inr e ↦
        Goes-same {s = upload http c co} (ground (arith, calm-round http c co u h k))
          (upload-Goes http keeps c co k)
  ]

  receiving-Goes :
      (c : Call) (co : ConnectionObject)
      → co.request.state ≡ data_receiving
      → is_some co.request.processor ≡ true
      → Goes co c.data_size (next_round http c co)
  receiving-Goes c co h v = elim (Bool-cases (no_data c)) [
    | inl e ↦ elim (Option-cases co.request.processor) [
      | inl g ↦ absurd (ground (arith, v, g))
      | inr (pp, g) ↦
          Goes-same {s = last_data http co}
            (ground (arith, next_round-state http c co data_receiving h))
            (last-Goes http keeps co c.data_size pp h g)
    ]
    | inr e ↦
        Goes-same {s = upload http c co}
          (ground (arith, next_round-state http c co data_receiving h))
          (upload-Goes http keeps c co (λ f. cc))
  ]

  -- Every call after the first, for a connection with data and error states in order.
  next_round-Goes :
      (c : Call) (co : ConnectionObject)
      → Unanswered http co
      → IsLive co
      → Goes co c.data_size (next_round http c co)
  next_round-Goes c co u v = go co.request.state refl
    where
      go : (s : RequestState) → co.request.state ≡ s → Goes co c.data_size (next_round http c co)
      go rs_error e =
          Goes-same (next_round-state http c co rs_error e) (recovery-Goes c co e (v.explained e))
      go data_receiving e = receiving-Goes c co e (v.processed e)
      go initial e = calm-Goes c co u (λ f. cc) (λ f. cc)
      go initial_complete e = calm-Goes c co u (λ f. cc) (λ f. cc)
      go data_received e = calm-Goes c co u (λ f. cc) (λ f. cc)

-- A later call that returns has met the assertion.
pub reacted-Unanswered :
    (http : Server) (c : Call) (co : ConnectionObject) (r : Reaction)
    → connection_cb http (some co) c ≡ reacted r
    → Unanswered http co
unfolding connection_cb
reacted-Unanswered http c co r e on f =
    let stuck : next_round http c co ≡ crashed =
      next_round-state http c co initial f ∙ rw on refl in
    absurd (ground (arith, e, stuck))

module _ (http : Server)
    (keeps : (pp : ℕ) (req : Request) (bytes : Option Str) (n : ℕ)
      → is_some (http.on_data pp req bytes n).0 ≡ true) where
  Life-IsLive : (co : ConnectionObject) → Life http co → IsLive co
  unfolding connection_cb
  Life-IsLive to (first c r _ e f) = first_round-IsLive http c r to e f
  Life-IsLive to (next c r co _ life e f) =
      let g =
        next_round-Goes http keeps c co (reacted-Unanswered http c co r e) (Life-IsLive co life) in
      let same : g.to ≡ to = ground (arith, e, f, g.result, g.con) in subst IsLive same g.live

  pub Life-onward :
      (co : ConnectionObject) (c : Call)
      → Life http co
      → Unanswered http co
      → (r : Reaction) × (to : ConnectionObject) × (connection_cb http (some co) c ≡ reacted r)
        × (r.con ≡ some to)
        × (rank co.request.state ≤ rank to.request.state)
        × (r.left ≤ c.data_size)
  unfolding connection_cb
  Life-onward co c life u =
      let g = next_round-Goes http keeps c co u (Life-IsLive co life) in
      (g.reaction, g.to, g.result, g.con, g.onward, g.bounded)

  -- If data processors stay in their place when they get data: after any calls, a connection in the
  -- state of an upload error has a response to send.
  pub Life-explained :
      (co : ConnectionObject)
      → Life http co
      → co.request.state ≡ rs_error
      → is_some co.response ≡ true
  Life-explained co life = (Life-IsLive co life).explained
