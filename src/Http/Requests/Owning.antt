-- ===== src/Http/Requests/Owning.antt =====
-- Whose the objects of lib/src/http.cc are, over all calls for all requests.
use cppmhd.Prelude.{
  ℕ, ◌≡◌, refl, inl, inr, ◌⊎◌, ◌≢◌, Option, none, some, ◌==◌, arith, Bool-cases, ==_iff, ==_self,
  sym, ◌∙◌, ap, subst,
}
use cppmhd.Http.Server.{Server}
use cppmhd.Http.Connection.{ConnectionObject, Call}
use cppmhd.Http.Connection.Rounds.{Life}
use cppmhd.Http.Requests.{
  Slot, ended, opened, Pool, put, empty_pool, message_cb, connection_finish_cb,
}

-- The pools after any calls for any requests, in any order. A new object gets a free address.
pub data Reached (http : Server) : Pool → Type 0 where
  at_first : Reached http empty_pool
  called :
      (r free : ℕ) (c : Call) (p to : Pool)
      → Reached http p
      → p.objects free ≡ none
      → message_cb http r free c p ≡ some to
      → Reached http to
  finished :
      (r : ℕ) (p to : Pool) → Reached http p → connection_finish_cb r p ≡ some to → Reached http to

-- A request's object is there and has had its calls, each object is of a request, and of one only.
pub record IsOwned (http : Server) (p : Pool) : Type 0 where
  pub holds :
      (r a : ℕ)
      → p.slots r ≡ opened (some a)
      → (co : ConnectionObject) × (p.objects a ≡ some co) × Life http co
  pub owner :
      (a : ℕ) (co : ConnectionObject)
      → p.objects a ≡ some co
      → (r : ℕ) × (p.slots r ≡ opened (some a))
  pub sole : (r s a : ℕ) → p.slots r ≡ opened (some a) → p.slots s ≡ opened (some a) → r ≡ s

module _ {A : Type 0} (at : ℕ) (v : A) (f : ℕ → A) where
  pub put_cases : (x : ℕ) → ((x ≡ at) × (put at v f x ≡ v)) ⊎ ((x ≢ at) × (put at v f x ≡ f x))
  put_cases x = elim (Bool-cases (x == at)) [
    | inl e ↦ inl ((==_iff x at).0 e, rw e refl)
    | inr e ↦ inr (λ same. ground (arith, e, same), rw e refl)
  ]

pub put_far : {A : Type 0} (at : ℕ) (v : A) (f : ℕ → A) (x : ℕ) → x ≢ at → put at v f x ≡ f x
put_far at v f x far = elim (put_cases at v f x) [
  | inl (same, _) ↦ absurd (far same)
  | inr (_, e) ↦ e
]

pub put-at : {A : Type 0} (at : ℕ) (v : A) (f : ℕ → A) → put at v f at ≡ v
put-at at v f = rw (==_self at) refl

abbrev address_of : Slot → Option ℕ
address_of ended = none
address_of (opened o) = o

pub opened_injective : (a b : ℕ) → opened (some a) ≡ opened (some b) → a ≡ b
opened_injective a b e = let f = ap address_of e in cc

pub ended-opened : (a : ℕ) → ended ≢ opened (some a)
ended-opened a e = let f = ap address_of e in cc

pub none-opened : (a : ℕ) → opened none ≢ opened (some a)
none-opened a e = let f = ap address_of e in cc

pub none-some : (co : ConnectionObject) → none ≢ some co
none-some co e = cc

module _ (http : Server) (p : Pool) (own : IsOwned http p) (r : ℕ) where
  -- A request without an object gets a slot without one.
  pub slot-IsOwned :
      (v : Slot)
      → ((a : ℕ) → p.slots r ≢ opened (some a))
      → ((a : ℕ) → v ≢ opened (some a))
      → IsOwned http (record p { slots = put r v p.slots })
  slot-IsOwned v old new = record {
    holds = λ s a e. elim (put_cases r v p.slots s) [
      | inl (_, f) ↦ absurd (new a (sym f ∙ e))
      | inr (_, f) ↦ own.holds s a (sym f ∙ e)
    ];
    owner = λ a co e.
        let (s, g) = own.owner a co e in
        elim (put_cases r v p.slots s) [
          | inl (same, f) ↦ absurd (old a (ap p.slots (sym same) ∙ g))
          | inr (_, f) ↦ (s, f ∙ g)
        ];
    sole = λ s t a e g. elim (put_cases r v p.slots s) [
      | inl (_, f) ↦ absurd (new a (sym f ∙ e))
      | inr (_, f) ↦ elim (put_cases r v p.slots t) [
        | inl (_, h) ↦ absurd (new a (sym h ∙ g))
        | inr (_, h) ↦ own.sole s t a (sym f ∙ e) (sym h ∙ g)
      ]
    ];
  }

  -- The object at an address that no other request has becomes that of the request.
  pub place-IsOwned :
      (a : ℕ) (to : ConnectionObject)
      → ((s : ℕ) → s ≢ r → p.slots s ≢ opened (some a))
      → ((b : ℕ) → p.slots r ≡ opened (some b) → b ≡ a)
      → Life http to
      → IsOwned http
          (record { objects = put a (some to) p.objects; slots = put r (opened (some a)) p.slots })
  place-IsOwned a to others mine life = record {
    holds = λ s b e. elim (put_cases r (opened (some a)) p.slots s) [
      | inl (_, f) ↦
          let same : a ≡ b = opened_injective a b (sym f ∙ e) in
          (
            to,
            subst (λ b. put a (some to) p.objects b ≡ some to) same (put-at a (some to) p.objects),
            life,
          )
      | inr (far, f) ↦
          let (co, g, old) = own.holds s b (sym f ∙ e) in
          elim (put_cases a (some to) p.objects b) [
            | inl (same, _) ↦ absurd (others s far (sym f ∙ e ∙ ap (λ x. opened (some x)) same))
            | inr (_, h) ↦ (co, h ∙ g, old)
          ]
    ];
    owner = λ b co e. elim (put_cases a (some to) p.objects b) [
      | inl (same, _) ↦
          (r, put-at r (opened (some a)) p.slots ∙ ap (λ x. opened (some x)) (sym same))
      | inr (far, f) ↦
          let (s, g) = own.owner b co (sym f ∙ e) in
          elim (put_cases r (opened (some a)) p.slots s) [
            | inl (same, _) ↦ absurd (far (mine b (ap p.slots (sym same) ∙ g)))
            | inr (_, h) ↦ (s, h ∙ g)
          ]
    ];
    sole = λ s t b e g. elim (put_cases r (opened (some a)) p.slots s) [
      | inl (same, f) ↦ elim (put_cases r (opened (some a)) p.slots t) [
        | inl (same', _) ↦ same ∙ sym same'
        | inr (far, h) ↦ absurd (others t far (sym h ∙ g ∙ sym (sym f ∙ e)))
      ]
      | inr (far, f) ↦ elim (put_cases r (opened (some a)) p.slots t) [
        | inl (_, h) ↦ absurd (others s far (sym f ∙ e ∙ sym (sym h ∙ g)))
        | inr (_, h) ↦ own.sole s t b (sym f ∙ e) (sym h ∙ g)
      ]
    ];
  }

  -- The object of the request is gone, and the request has ended.
  pub delete-IsOwned :
      (a : ℕ)
      → p.slots r ≡ opened (some a)
      → IsOwned http (record { objects = put a none p.objects; slots = put r ended p.slots })
  delete-IsOwned a at = record {
    holds = λ s b e. elim (put_cases r ended p.slots s) [
      | inl (_, f) ↦ absurd (ended-opened b (sym f ∙ e))
      | inr (far, f) ↦
          let (co, g, old) = own.holds s b (sym f ∙ e) in
          elim (put_cases a none p.objects b) [
            | inl (same, _) ↦
                absurd (far (own.sole s r a (sym f ∙ e ∙ ap (λ x. opened (some x)) same) at))
            | inr (_, h) ↦ (co, h ∙ g, old)
          ]
    ];
    owner = λ b co e. elim (put_cases a none p.objects b) [
      | inl (_, f) ↦ absurd (none-some co (sym f ∙ e))
      | inr (far, f) ↦
          let (s, g) = own.owner b co (sym f ∙ e) in
          elim (put_cases r ended p.slots s) [
            | inl (same, _) ↦ absurd (far (opened_injective b a (sym g ∙ ap p.slots same ∙ at)))
            | inr (_, h) ↦ (s, h ∙ g)
          ]
    ];
    sole = λ s t b e g. elim (put_cases r ended p.slots s) [
      | inl (_, f) ↦ absurd (ended-opened b (sym f ∙ e))
      | inr (_, f) ↦ elim (put_cases r ended p.slots t) [
        | inl (_, h) ↦ absurd (ended-opened b (sym h ∙ g))
        | inr (_, h) ↦ own.sole s t b (sym f ∙ e) (sym h ∙ g)
      ]
    ];
  }
