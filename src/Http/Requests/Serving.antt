-- ===== src/Http/Requests/Serving.antt =====
-- Every call for any request, in any order: `MHDconnectionCB` and `connectionFinishCB` of
-- lib/src/http.cc.
use cppmhd.Prelude.{
  ℕ, ◌≡◌, refl, inl, inr, ◌⊎◌, ◌≢◌, true, Option, none, some, is_some, arith, Option-cases, sym,
  ◌∙◌, subst, Str,
}
use cppmhd.Entity.{Request}
use cppmhd.Http.Server.{Server}
use cppmhd.Http.Connection.{
  ConnectionObject, Call, Reaction, Result, reacted, crashed, connection_cb,
}
use cppmhd.Http.Connection.Rounds.{Life, first, next, Life-onward, Unanswered, reacted-Unanswered}
use cppmhd.Http.Requests.{
  Slot, ended, opened, Pool, put, kept, first_call, later_call, message_cb, connection_finish_cb,
}
use cppmhd.Http.Requests.Owning.{
  Reached, at_first, called, finished, IsOwned, slot-IsOwned, place-IsOwned, delete-IsOwned,
  opened_injective, ended-opened, none-opened, put_far, put-at, none-some,
}

Result-cases : (r : Result) → (r ≡ crashed) ⊎ ((re : Reaction) × (r ≡ reacted re))
Result-cases crashed = inl refl
Result-cases (reacted re) = inr (re, refl)

module _ (http : Server)
    (keeps : (pp : ℕ) (req : Request) (bytes : Option Str) (n : ℕ)
      → is_some (http.on_data pp req bytes n).0 ≡ true) where
  -- A first call, for a request without an object.
  first_call-IsOwned :
      (r free : ℕ) (c : Call) (p to : Pool)
      → IsOwned http p
      → ((a : ℕ) → p.slots r ≢ opened (some a))
      → p.objects free ≡ none
      → first_call http r free c p ≡ some to
      → IsOwned http to
  unfolding first_call
  first_call-IsOwned r free c p to own bare unused e =
      elim (Result-cases (connection_cb http none c)) [
        | inl f ↦ absurd (ground (arith, e, f))
        | inr (re, f) ↦
            let same : kept r free re p ≡ to = ground (arith, e, f) in
            subst (IsOwned http) same (elim (Option-cases re.con) [
              | inl g ↦
                  rw (kept, g) (slot-IsOwned http p own r (opened none) bare (λ a. none-opened a))
              | inr (co, g) ↦
                  rw (kept, g)
                    (place-IsOwned http p own r free co
                      (λ s far h.
                        let (old, k, _) = own.holds s free h in absurd (ground (arith, unused, k)))
                      (λ b h. absurd (bare b h)) (first c re co f g))
            ])
      ]

  -- A later call finds the object, and does not crash.
  later_call-some :
      (r a : ℕ) (c : Call) (p : Pool)
      → IsOwned http p
      → p.slots r ≡ opened (some a)
      → ((co : ConnectionObject) → p.objects a ≡ some co → Unanswered http co)
      → (co to : ConnectionObject) × (p.objects a ≡ some co)
        × Life http to
        × (later_call http r a c p
            ≡ some (record {
              objects = put a (some to) p.objects;
              slots = put r (opened (some a)) p.slots;
            }))
  unfolding later_call
  later_call-some r a c p own at open_request =
      let (co, there, life) = own.holds r a at in
      let (re, to, result, con, _, _) = Life-onward http keeps co c life (open_request co there) in
      (
        co,
        to,
        there,
        next c re co to life result con,
        rw (later_call, there, result, kept, con) refl,
      )

  -- A later call that returns has met the assertion.
  later_call-Unanswered :
      (r a : ℕ) (c : Call) (p to : Pool)
      → later_call http r a c p ≡ some to
      → (co : ConnectionObject) → p.objects a ≡ some co
      → Unanswered http co
  unfolding later_call
  later_call-Unanswered r a c p to e co there =
      elim (Result-cases (connection_cb http (some co) c)) [
        | inl f ↦ absurd (ground (arith, e, there, f))
        | inr (re, f) ↦ reacted-Unanswered http c co re f
      ]

  message_cb-IsOwned :
      (r free : ℕ) (c : Call) (p to : Pool)
      → IsOwned http p
      → p.objects free ≡ none
      → message_cb http r free c p ≡ some to
      → IsOwned http to
  unfolding message_cb
  message_cb-IsOwned r free c p to own unused = go (p.slots r) refl
    where
      go :
          (s : Slot)
          → p.slots r ≡ s
          → elim s as (λ _. Option Pool) [
            | ended ↦ first_call http r free c p
            | opened none ↦ first_call http r free c p
            | opened (some a) ↦ later_call http r a c p
          ]
            ≡ some to
          → IsOwned http to
      go ended at e =
          first_call-IsOwned r free c p to own (λ a h. ended-opened a (sym at ∙ h)) unused e
      go (opened none) at e =
          first_call-IsOwned r free c p to own (λ a h. none-opened a (sym at ∙ h)) unused e
      go (opened (some a)) at e =
          let (co, next_co, there, life, result) =
            later_call-some r a c p own at (later_call-Unanswered r a c p to e) in
          let after : Pool = record {
            objects = put a (some next_co) p.objects;
            slots = put r (opened (some a)) p.slots;
          } in
          let same : after ≡ to = ground (arith, e, result) in
          subst (IsOwned http) same (
            place-IsOwned http p own r a next_co (λ s far h. absurd (far (own.sole s r a h at)))
              (λ b h. opened_injective b a (sym h ∙ at)) life)

  finish-IsOwned :
      (r : ℕ) (p to : Pool) → IsOwned http p → connection_finish_cb r p ≡ some to → IsOwned http to
  unfolding connection_finish_cb
  finish-IsOwned r p to own = go (p.slots r) refl
    where
      go :
          (s : Slot)
          → p.slots r ≡ s
          → elim s as (λ _. Option Pool) [
            | ended ↦ some p
            | opened none ↦ some (record p { slots = put r ended p.slots })
            | opened (some a) ↦ elim (p.objects a) [
              | none ↦ none
              | some co ↦
                  some (record { objects = put a none p.objects; slots = put r ended p.slots })
            ]
          ]
            ≡ some to
          → IsOwned http to
      go ended at e = let same : p ≡ to = cc in subst (IsOwned http) same own
      go (opened none) at e =
          let same : record p { slots = put r ended p.slots } ≡ to = cc in
          subst (IsOwned http) same (
            slot-IsOwned http p own r ended (λ a h. none-opened a (sym at ∙ h))
              (λ a. ended-opened a))
      go (opened (some a)) at e =
          let (co, there, _) = own.holds r a at in
          let same : record { objects = put a none p.objects; slots = put r ended p.slots } ≡ to =
            ground (arith, e, there) in
          subst (IsOwned http) same (delete-IsOwned http p own r a at)

  Reached-IsOwned : (p : Pool) → Reached http p → IsOwned http p
  Reached-IsOwned p at_first = record {
    holds = λ r a e. absurd (ended-opened a e);
    owner = λ a co e. absurd (none-some co e);
    sole = λ r s a e g. absurd (ended-opened a e);
  }
  Reached-IsOwned p (called r free c from _ h unused e) =
      message_cb-IsOwned r free c from p (Reached-IsOwned from h) unused e
  Reached-IsOwned p (finished r from _ h e) = finish-IsOwned r from p (Reached-IsOwned from h) e

  -- If data processors stay in their place when they get data: after any calls for any requests, in
  -- any order, take a request that has an object, which its first call has not answered at once if the
  -- build has assertions. The next call for it finds that object, in a state that calls of the
  -- callback lead to, uses no null pointer and no object that is gone, fails no assertion, and changes
  -- no other object; and the end of the request deletes it, and no other.
  pub message_cb-Reached :
      (p : Pool) (r a free : ℕ) (c : Call)
      → Reached http p
      → p.slots r ≡ opened (some a)
      → ((co : ConnectionObject) → p.objects a ≡ some co → Unanswered http co)
      → ((co : ConnectionObject) × (p.objects a ≡ some co) × Life http co)
        × ((to : Pool) × (message_cb http r free c p ≡ some to)
            × ((b : ℕ) → b ≢ a → to.objects b ≡ p.objects b))
        × ((to : Pool) × (connection_finish_cb r p ≡ some to)
            × (to.objects a ≡ none)
            × ((b : ℕ) → b ≢ a → to.objects b ≡ p.objects b))
  unfolding message_cb connection_finish_cb
  message_cb-Reached p r a free c reached at open_request =
      let own = Reached-IsOwned p reached in
      let (co, next_co, there, _, result) = later_call-some r a c p own at open_request in
      let after : Pool = record {
        objects = put a (some next_co) p.objects;
        slots = put r (opened (some a)) p.slots;
      } in
      let gone : Pool = record { objects = put a none p.objects; slots = put r ended p.slots } in
      (
        own.holds r a at,
        (after, rw (message_cb, at) result, λ b far. put_far a (some next_co) p.objects b far),
        (
          gone,
          rw (connection_finish_cb, at, there) refl,
          put-at a none p.objects,
          λ b far. put_far a none p.objects b far,
        ),
      )

  -- If data processors stay in their place when they get data: after any calls for any requests, in
  -- any order, each object that is not deleted is that of a request which has not ended, and of one
  -- only; so no object is left when all requests have ended.
  pub Reached-owner :
      (p : Pool) (a : ℕ) (co : ConnectionObject)
      → Reached http p
      → p.objects a ≡ some co
      → (r : ℕ) × (p.slots r ≡ opened (some a)) × ((s : ℕ) → p.slots s ≡ opened (some a) → s ≡ r)
  Reached-owner p a co reached e =
      let own = Reached-IsOwned p reached in
      let (r, at) = own.owner a co e in (r, at, λ s h. own.sole s r a h at)
