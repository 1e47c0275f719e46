-- ===== src/Controller/Form/Told.antt =====
-- What the controller of a form is told, over all the data of a request: `FormProcessor` of
-- lib/src/controller.cc.
use cppmhd.Prelude.{
  ℕ, ◌≡◌, refl, Bool, false, Option, none, some, List, [], ◌∷◌, ◌++◌, Str, str_eq, str_eq_sound,
  ◌==◌, map, ap, ap₂, sym, ◌∙◌, Bool-cases, inl, inr, All, arith, ◌<◌,
}
use mathlib.Core.List.{append-nil, append_assoc, map-append}
use cppmhd.Controller.Form.{
  Names, no_names, Piece, FormCall, Parsing, ends, calls, FormProcessor, refreshed, renamed,
  call_of, finish_call, on_piece, run, on_data,
}

-- The last string that is given, or the first argument.
abbrev pub last_given : Str → List (Option Str) → Str
last_given s [] = s
last_given s (none ∷ os) = last_given s os
last_given s (some t ∷ os) = last_given t os

-- The names that the last pieces gave.
unfoldable pub given : List Piece → Names
given ps = record {
  key_name = last_given [] (map (λ p. p.key) ps);
  file_name = last_given [] (map (λ p. p.file) ps);
  content_type = last_given [] (map (λ p. p.kind) ps);
  transfer_encoding = last_given [] (map (λ p. p.encoding) ps);
}

-- The calls for some pieces, after some earlier ones.
unfoldable pub calls_for : List Piece → List Piece → List FormCall
calls_for old [] = []
calls_for old (p ∷ ps) = call_of (given (old ++ p ∷ [])) p ∷ calls_for (old ++ p ∷ []) ps

refreshed_lem : (old : Str) (o : Option Str) → refreshed old o ≡ last_given old (o ∷ [])
unfolding refreshed
refreshed_lem old none = refl
refreshed_lem old (some t) = elim (Bool-cases (str_eq old t)) [
  | inl e ↦ rw (refreshed, e) (str_eq_sound old t e)
  | inr e ↦ rw (refreshed, e) refl
]

last_given-append :
    (s : Str) (os : List (Option Str)) (o : Option Str)
    → last_given s (os ++ o ∷ []) ≡ refreshed (last_given s os) o
last_given-append s [] o = sym (refreshed_lem s o)
last_given-append s (none ∷ os) o = last_given-append s os o
last_given-append s (some t ∷ os) o = last_given-append t os o

last_given-snoc :
    (f : Piece → Option Str) (ps : List Piece) (p : Piece)
    → last_given [] (map f (ps ++ p ∷ [])) ≡ refreshed (last_given [] (map f ps)) (f p)
last_given-snoc f ps p =
    ap (last_given []) (map-append f ps (p ∷ [])) ∙ last_given-append [] (map f ps) (f p)

given-snoc : (ps : List Piece) (p : Piece) → renamed (given ps) p ≡ given (ps ++ p ∷ [])
unfolding renamed given
given-snoc ps p =
    rw
      (
        last_given-snoc (λ p. p.key) ps p,
        last_given-snoc (λ p. p.file) ps p,
        last_given-snoc (λ p. p.kind) ps p,
        last_given-snoc (λ p. p.encoding) ps p,
      )
      refl

calls_for-append :
    (old ps qs : List Piece)
    → calls_for old (ps ++ qs) ≡ calls_for old ps ++ calls_for (old ++ ps) qs
unfolding calls_for
calls_for-append old [] qs = ap (λ v. calls_for v qs) (sym (append-nil old))
calls_for-append old (p ∷ ps) qs = ap (◌∷◌ (call_of (given (old ++ p ∷ [])) p)) (
    calls_for-append (old ++ p ∷ []) ps qs
    ∙ ap (λ v. calls_for (old ++ p ∷ []) ps ++ calls_for v qs) (append_assoc old (p ∷ []) ps))

module _ {ℓ} {P : Type ℓ} (post_process : P → Option Str → ℕ → Parsing P)
    (accepts : List FormCall → FormCall → Bool) where
  -- The pieces that a call of `MHD_post_process` finds.
  unfoldable pub delivered : Parsing P → FormProcessor P → List Piece
  delivered (ends pp ok) fp = []
  delivered (calls p k) fp =
      let (ok, fp') = on_piece post_process accepts p fp in p ∷ delivered (k ok) fp'

  -- `onData` for all the data of a request, and the pieces found in it.
  unfoldable pub all_data : List (Option Str × ℕ) → FormProcessor P → FormProcessor P
  all_data [] fp = fp
  all_data ((bytes, size) ∷ ds) fp = all_data ds (on_data post_process accepts bytes size fp).1

  unfoldable pub all_pieces : List (Option Str × ℕ) → FormProcessor P → List Piece
  unfolding delivered
  all_pieces [] fp = []
  all_pieces ((bytes, size) ∷ ds) fp =
      delivered (post_process fp.pp bytes size) fp
      ++ all_pieces ds (on_data post_process accepts bytes size fp).1

  abbrev Tells : List Piece → FormProcessor P → List Piece → FormProcessor P → Type 0
  Tells old fp ps fp' = (fp'.names ≡ given (old ++ ps)) × (fp'.told ≡ fp.told ++ calls_for old ps)

  run-Tells :
      (q : Parsing P) (old : List Piece) (fp : FormProcessor P)
      → fp.names ≡ given old
      → Tells old fp (delivered q fp) (run post_process accepts q fp).1
  unfolding run on_piece delivered calls_for
  run-Tells (ends pp ok) old fp h = (h ∙ ap given (sym (append-nil old)), sym (append-nil fp.told))
  run-Tells (calls p k) old fp h =
      let e : renamed fp.names p ≡ given (old ++ p ∷ []) =
        ap (λ ns. renamed ns p) h ∙ given-snoc old p in
      let (ok, fp') = on_piece post_process accepts p fp in
      let (named, told) = run-Tells (k ok) (old ++ p ∷ []) fp' e in
      (
        named ∙ ap given (append_assoc old (p ∷ []) (delivered (k ok) fp')),
        told
            ∙ append_assoc fp.told (call_of (renamed fp.names p) p ∷ [])
                (calls_for (old ++ p ∷ []) (delivered (k ok) fp'))
            ∙ ap (λ ns. fp.told ++ call_of ns p ∷ calls_for (old ++ p ∷ []) (delivered (k ok) fp'))
                e,
      )

  all_data-Tells :
      (ds : List (Option Str × ℕ)) (old : List Piece) (fp : FormProcessor P)
      → All (λ d. 0 < d.1) ds
      → fp.names ≡ given old
      → Tells old fp (all_pieces ds fp) (all_data ds fp)
  unfolding all_pieces all_data calls_for on_data given
  all_data-Tells [] old fp a h = (h ∙ ap given (sym (append-nil old)), sym (append-nil fp.told))
  all_data-Tells ((bytes, size) ∷ ds) old fp (a, rest) h =
      let ps = delivered (post_process fp.pp bytes size) fp in
      let (_, fp') = on_data post_process accepts bytes size fp in
      let here : Tells old fp ps fp' =
        let e : (size == 0) ≡ false = ground (arith, a) in
        rw (on_data, e) (run-Tells (post_process fp.pp bytes size) old fp h) in
      let (named, told) = all_data-Tells ds (old ++ ps) fp' rest here.0 in
      let qs = all_pieces ds fp' in
      (
        named ∙ ap given (append_assoc old ps qs),
        told
            ∙ ap (λ v. v ++ calls_for (old ++ ps) qs) here.1
            ∙ append_assoc fp.told (calls_for old ps) (calls_for (old ++ ps) qs)
            ∙ ap (λ v. fp.told ++ v) (sym (calls_for-append old ps qs)),
      )

  -- A new form processor hands its controller each piece that `MHD_post_process` finds in the data,
  -- in order and unchanged, with the names that were given last; and when there is no more data, a
  -- last call with the names of the last pieces and without data.
  pub on_data-told :
      (ds : List (Option Str × ℕ)) (pp : P) (told : List FormCall)
      → All (λ d. 0 < d.1) ds
      → let fp : FormProcessor P = record { pp = pp; names = no_names; told = told } in
        let ps = all_pieces ds fp in
        (on_data post_process accepts none 0 (all_data ds fp)).1.told
        ≡ told ++ (calls_for [] ps ++ finish_call (given ps) ∷ [])
  unfolding on_data given
  on_data-told ds pp told a =
      let fp : FormProcessor P = record { pp = pp; names = no_names; told = told } in
      let (named, same) = all_data-Tells ds [] fp a refl in
      ap₂ (λ v ns. v ++ finish_call ns ∷ []) same named
      ∙ append_assoc told (calls_for [] (all_pieces ds fp))
          (finish_call (given (all_pieces ds fp)) ∷ [])
