-- ===== src/Http/Requests.antt =====
-- The requests that are open at one time in lib/src/http.cc: where `MHDconnectionCB` keeps its
-- objects, and where `connectionFinishCB` deletes them.
pub mod Owning
pub mod Serving
pub mod Tests
use cppmhd.Prelude.{
  ℕ, ◌≡◌, refl, inl, inr, ◌⊎◌, Bool, true, false, Option, none, some, ◌==◌, if◌then◌else◌, is_some,
  arith, Bool-cases, Option-cases, ==_iff, ==_self, sym, ◌∙◌, ap, subst, Str,
}
use cppmhd.Entity.{Request}
use cppmhd.Http.Server.{Server}
use cppmhd.Http.Connection.{
  ConnectionObject, Call, Reaction, Result, reacted, crashed, connection_cb,
}

-- What libmicrohttpd keeps for a request: `*con_cls`, an address or null. It is null when the request
-- begins, and not used when it has ended.
pub data Slot : Type 0 where
  ended : Slot
  opened : Option ℕ → Slot

-- The objects by their addresses, and the requests by their numbers.
pub record Pool : Type 0 where
  pub objects : ℕ → Option ConnectionObject
  pub slots : ℕ → Slot

abbrev pub put {ℓ} : {A : Type ℓ} → ℕ → A → (ℕ → A) → ℕ → A
put at v f x = if x == at then v else f x

abbrev pub empty_pool : Pool
empty_pool = record { objects = λ a. none; slots = λ r. ended }

-- `new ConnectionObject` at a free address, which becomes `*con_cls`.
abbrev pub kept : ℕ → ℕ → Reaction → Pool → Pool
kept r a reaction p = elim reaction.con [
  | none ↦ record p { slots = put r (opened none) p.slots }
  | some co ↦ record {
    objects = put a (some co) p.objects;
    slots = put r (opened (some a)) p.slots;
  }
]

-- A call for a request that has no object yet, and for one that has; `none` is a null or an object
-- that is gone and is used.
unfoldable pub first_call : Server → ℕ → ℕ → Call → Pool → Option Pool
unfolding connection_cb
first_call http r a c p = elim (connection_cb http none c) [
  | crashed ↦ none
  | reacted reaction ↦ some (kept r a reaction p)
]

unfoldable pub later_call : Server → ℕ → ℕ → Call → Pool → Option Pool
unfolding connection_cb
later_call http r a c p = elim (p.objects a) [
  | none ↦ none
  | some co ↦ elim (connection_cb http (some co) c) [
    | crashed ↦ none
    | reacted reaction ↦ some (kept r a reaction p)
  ]
]

-- `MHDconnectionCB` for the request `r`; a new object gets the address `free`.
unfoldable pub message_cb : Server → ℕ → ℕ → Call → Pool → Option Pool
unfolding first_call later_call
message_cb http r free c p = elim (p.slots r) [
  | ended ↦ first_call http r free c p
  | opened none ↦ first_call http r free c p
  | opened (some a) ↦ later_call http r a c p
]

-- `connectionFinishCB`; `none` is a second deletion.
unfoldable pub connection_finish_cb : ℕ → Pool → Option Pool
connection_finish_cb r p = elim (p.slots r) [
  | ended ↦ some p
  | opened none ↦ some (record p { slots = put r ended p.slots })
  | opened (some a) ↦ elim (p.objects a) [
    | none ↦ none
    | some co ↦ some (record { objects = put a none p.objects; slots = put r ended p.slots })
  ]
]
