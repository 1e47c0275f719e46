-- ===== src/Controller/Form/Refusals.antt =====
-- How a form processor ends when its controller refuses a piece or the data is no form:
-- `FormProcessor` of lib/src/controller.cc.
use cppmhd.Prelude.{
  ℕ, ◌≡◌, ◌<◌, ◌⊎◌, inl, inr, refl, subst, Bool, true, false, Option, List, [], ◌∷◌, ◌++◌, Str,
  ◌==◌, ap, sym, ◌∙◌, Bool-cases, arith,
}
use mathlib.Core.List.{append-nil, append_assoc}
use cppmhd.Http.Connection.{parse_failed}
use cppmhd.Controller.Form.{
  FormCall, Parsing, ends, calls, FormProcessor, renamed, call_of, on_piece, run, on_data,
}

-- What the documentation of `MHD_post_process` says of the iterator: when it returns MHD_NO, parsing
-- is aborted and fails.
unfoldable pub Aborts : {P : Type 0} → Parsing P → Type 0
Aborts (ends pp ok) = Unit
Aborts {P = P} (calls p k) = ((pp : P) × (k false ≡ ends pp false)) × Aborts (k true)

module _ {P : Type 0} (post_process : P → Option Str → ℕ → Parsing P)
    (accepts : List FormCall → FormCall → Bool) where
  -- The controller accepts each call of a list, after those before it.
  abbrev pub AllAccepted : List FormCall → List FormCall → Type 0
  AllAccepted told [] = Unit
  AllAccepted told (c ∷ cs) = (accepts told c ≡ true) × AllAccepted (told ++ c ∷ []) cs

  -- All calls were accepted.
  abbrev pub Whole : List FormCall → List FormCall → Type 0
  Whole told told' = (cs : List FormCall) × (told' ≡ told ++ cs) × AllAccepted told cs

  -- The last call was refused, and no other.
  abbrev pub Stopped : List FormCall → List FormCall → Type 0
  Stopped told told' =
      (cs : List FormCall) × (c : FormCall) × (told' ≡ (told ++ cs) ++ c ∷ [])
      × AllAccepted told cs
      × (accepts (told ++ cs) c ≡ false)

  abbrev Ending : List FormCall → Bool × FormProcessor P → Type 0
  Ending told (ok, fp) = Whole told fp.told ⊎ (Stopped told fp.told × (ok ≡ false))

  Ending-earlier :
      (told : List FormCall) (c : FormCall) (r : Bool × FormProcessor P)
      → accepts told c ≡ true
      → Ending (told ++ c ∷ []) r
      → Ending told r
  Ending-earlier told c r h (inl (cs, e, a)) =
      inl (c ∷ cs, e ∙ append_assoc told (c ∷ []) cs, (h, a))
  Ending-earlier told c r h (inr ((cs, d, e, a, n), f)) =
      let same = append_assoc told (c ∷ []) cs in
      inr (
        (
          c ∷ cs,
          d,
          e ∙ ap (λ v. v ++ d ∷ []) same,
          (h, a),
          subst (λ v. accepts v d ≡ false) same n,
        ),
        f,
      )

  run-ends :
      (q : Parsing P) (fp : FormProcessor P)
      → Aborts q
      → Ending fp.told (run post_process accepts q fp)
  unfolding run on_piece Aborts
  run-ends (ends pp ok) fp a = inl ([], sym (append-nil fp.told), tt)
  run-ends (calls p k) fp ((pp, e), a) =
      let c = call_of (renamed fp.names p) p in
      let (ok, fp') = on_piece post_process accepts p fp in
      let goes : Bool → Type 0 = λ b. Ending fp.told (run post_process accepts (k b) fp') in
      elim (Bool-cases (accepts fp.told c)) [
        | inl g ↦ subst goes (sym g) (
            Ending-earlier fp.told c (run post_process accepts (k true) fp') g
              (run-ends (k true) fp' a))
        | inr g ↦
            let nil = append-nil fp.told in
            subst goes (sym g) (
              subst (λ q. Ending fp.told (run post_process accepts q fp')) (sym e)
                (inr (
                  (
                    [],
                    c,
                    ap (λ v. v ++ c ∷ []) (sym nil),
                    tt,
                    subst (λ v. accepts v c ≡ false) (sym nil) g,
                  ),
                  refl,
                )))
      ]

  -- When a form processor gets data, either the controller accepts every piece found in it, and the
  -- processor takes all the data or returns the error; or the controller refuses a piece, which is
  -- then the last that it is told of this data, and the processor returns the error. That holds if
  -- `MHD_post_process` fails once the iterator does.
  pub on_data-ends :
      (bytes : Option Str) (size : ℕ) (fp : FormProcessor P)
      → 0 < size
      → Aborts (post_process fp.pp bytes size)
      → let (n, fp') = on_data post_process accepts bytes size fp in
        (Whole fp.told fp'.told × ((n ≡ size) ⊎ (n ≡ parse_failed)))
        ⊎ (Stopped fp.told fp'.told × (n ≡ parse_failed))
  unfolding on_data
  on_data-ends bytes size fp lt a =
      let e : (size == 0) ≡ false = ground (arith, lt) in
      let q = post_process fp.pp bytes size in
      let (ok, fp') = run post_process accepts q fp in
      rw (on_data, e)
        (elim (run-ends q fp a) [
          | inl w ↦
              inl (w, elim (Bool-cases ok) [ inl g ↦ inl (rw g refl) | inr g ↦ inr (rw g refl) ])
          | inr (s, g) ↦ inr (s, rw g refl)
        ])
