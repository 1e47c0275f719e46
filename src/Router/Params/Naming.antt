-- ===== src/Router/Params/Naming.antt =====
-- `params.emplace` of `Router::forward` in lib/src/router.cc: of several values with one name, the
-- first counts.
use cppmhd.Prelude.{
  ◌≡◌, refl, ap, sym, ◌∙◌, false, Option, some, none, List, [], ◌∷◌, ◌++◌, Str, str_eq,
  str_eq_sound, if◌then◌else◌, Bool-cases, inl, inr, subst,
}
use mathlib.Core.List.{append-nil, append_assoc}
use cppmhd.Router.Forward.{Params, emplace}
use cppmhd.Router.Params.Trails.{Trail, end, last, more, rest, named, pairs, first_value}

abbrev or_first : Option Str → Params → Str → Option Str
or_first none ps x = first_value ps x
or_first (some v) ps x = some v

first_value-append :
    (ps rs : Params) (x : Str) → first_value (ps ++ rs) x ≡ or_first (first_value ps x) rs x
first_value-append [] rs x = refl
first_value-append ((l, w) ∷ ps) rs x = elim (Bool-cases (str_eq l x)) [
  | inl e ↦ rw e refl
  | inr e ↦ rw e (first_value-append ps rs x)
]

or_first-none : (o : Option Str) (k v x : Str) → str_eq k x ≡ false → or_first o ((k, v) ∷ []) x ≡ o
or_first-none none k v x e = rw e refl
or_first-none (some w) k v x e = refl

first_value-emplace :
    (k v : Str) (ps : Params) (x : Str)
    → first_value (emplace k v ps) x ≡ first_value (ps ++ (k, v) ∷ []) x
unfolding emplace
first_value-emplace k v [] x = refl
first_value-emplace k v ((l, w) ∷ ps) x = elim (Bool-cases (str_eq l k)) [
  | inl e ↦ elim (Bool-cases (str_eq l x)) [
    | inl f ↦ rw (e, f) refl
    | inr f ↦
        let other : str_eq k x ≡ false = subst (λ l. str_eq l x ≡ false) (str_eq_sound l k e) f in
        rw (e, f)
          (sym
            (first_value-append ps ((k, v) ∷ []) x ∙ or_first-none (first_value ps x) k v x other))
  ]
  | inr e ↦ rw e (ap (λ o. if str_eq l x then some w else o) (first_value-emplace k v ps x))
]

-- The parameters that the nodes leave have the same first values as all pairs in their order.
pub first_value-named :
    (t : Trail) (vs : List Str) (ps : Params) (x : Str)
    → first_value (named t vs ps) x ≡ first_value (ps ++ pairs t vs) x
first_value-named (end s) vs ps x = ap (λ qs. first_value qs x) (sym (append-nil ps))
first_value-named (last s p) [] ps x = ap (λ qs. first_value qs x) (sym (append-nil ps))
first_value-named (last s p) (v ∷ vs) ps x = first_value-emplace p.name v ps x
first_value-named (more s p t) [] ps x = ap (λ qs. first_value qs x) (sym (append-nil ps))
first_value-named (more s p t) (v ∷ vs) ps x =
    first_value-named t vs (emplace p.name v ps) x
    ∙ first_value-append (emplace p.name v ps) (pairs t vs) x
    ∙ ap (λ o. or_first o (pairs t vs) x) (first_value-emplace p.name v ps x)
    ∙ sym (first_value-append (ps ++ (p.name, v) ∷ []) (pairs t vs) x)
    ∙ ap (λ qs. first_value qs x) (append_assoc ps ((p.name, v) ∷ []) (pairs t vs))
first_value-named (rest s p) [] ps x = ap (λ qs. first_value qs x) (sym (append-nil ps))
first_value-named (rest s p) (v ∷ vs) ps x = first_value-emplace p.name v ps x
