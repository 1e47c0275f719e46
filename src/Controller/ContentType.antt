-- ===== src/Controller/ContentType.antt =====
-- `isPrefixOfArray` of lib/src/utils.h, and `FormDataProcessorController::onConnection` of
-- lib/src/controller.cc.
use cppmhd.Prelude.{
  ==_comm, ℕ, zero, suc, ◌≡◌, ◌≤◌, ◌↔◌, ◌⊎◌, inl, inr, refl, Bool, true, false, ◌&&◌, ◌||◌, Option,
  none, some, List, [], ◌∷◌, ◌++◌, Str, codes, strn_equal, if◌then◌else◌, length, arith, ◌==◌,
  ==_self, subst, ap₂, ◌∙◌, length-append,
}
use Prim.Native.Nat.{min}
use cppmhd.Controller.Form.{FormProcessor, no_names, FormCall}

-- `isPrefixOfArray(ct, cp)`
unfoldable pub is_prefix_of_array : Option Str → Str → Bool
is_prefix_of_array none cp = false
is_prefix_of_array (some ct) cp = strn_equal ct cp (min (length ct) (length cp))

abbrev pub urlencoded : Str
urlencoded = codes "application/x-www-form-urlencoded"

abbrev pub multipart : Str
multipart = codes "multipart/form-data"

unfoldable pub is_form : Option Str → Bool
unfolding is_prefix_of_array
is_form ct = is_prefix_of_array ct urlencoded || is_prefix_of_array ct multipart

-- `onConnection`: the new processor, whose controller has got the calls `told`. `connection` says
-- whether there is one, `ct` is its content type, and `created` the result of
-- `MHD_create_post_processor`.
unfoldable pub on_connection :
    {P : Type 0} → Bool → Option Str → Option P → List FormCall → Option (FormProcessor P)
unfolding is_form
on_connection connection ct created told =
    if connection && is_form ct
    then elim created [
      | none ↦ none
      | some pp ↦ some (record { pp = pp; names = no_names; told = told })
    ]
    else none

strn_equal-split :
    (s t : Str)
    → strn_equal s t (min (length s) (length t)) ≡ true
    → ((r : Str) × (s ++ r ≡ t)) ⊎ ((r : Str) × (t ++ r ≡ s))
unfolding strn_equal
strn_equal-split [] t h = inl (t, refl)
strn_equal-split (x ∷ s) [] h = inr (x ∷ s, refl)
strn_equal-split (x ∷ s) (y ∷ t) h =
    let m : min (suc (length s)) (suc (length t)) ≡ suc (min (length s) (length t)) = omega arith in
    let h' : (x == y && strn_equal s t (min (length s) (length t))) ≡ true =
      subst (λ n. strn_equal (x ∷ s) (y ∷ t) n ≡ true) m h in
    let e : x ≡ y = ground (arith, h') in
    let t' : strn_equal s t (min (length s) (length t)) ≡ true = ground (arith, h') in
    elim (strn_equal-split s t t') [ inl (r, g) ↦ inl (r, cc) | inr (r, g) ↦ inr (r, cc) ]

strn_equal-front : (s r : Str) (n : ℕ) → n ≤ length s → strn_equal s (s ++ r) n ≡ true
unfolding strn_equal
strn_equal-front s r zero h = refl
strn_equal-front [] r (suc n) h = absurd (omega (arith, h))
strn_equal-front (x ∷ s) r (suc n) h = ground (arith, ==_self x, strn_equal-front s r n)

strn_==_comm : (s t : Str) (n : ℕ) → strn_equal s t n ≡ strn_equal t s n
unfolding strn_equal
strn_==_comm s t zero = refl
strn_==_comm [] [] (suc n) = refl
strn_==_comm [] (y ∷ t) (suc n) = refl
strn_==_comm (x ∷ s) [] (suc n) = refl
strn_==_comm (x ∷ s) (y ∷ t) (suc n) = ap₂ (λ a b. a && b) (==_comm x y) (strn_==_comm s t n)

-- A content type is taken for the one of the array exactly if it begins with it or is the beginning
-- of it.
pub is_prefix_of_array_iff :
    (ct cp : Str)
    → (is_prefix_of_array (some ct) cp ≡ true)
      ↔ (((r : Str) × (ct ++ r ≡ cp)) ⊎ ((r : Str) × (cp ++ r ≡ ct)))
unfolding is_prefix_of_array
is_prefix_of_array_iff ct cp = (
  strn_equal-split ct cp,
  λ v. elim v [
    | inl (r, g) ↦
        subst (λ t. strn_equal ct t (min (length ct) (length t)) ≡ true) g
          (strn_equal-front ct r (min (length ct) (length (ct ++ r)))
            (omega (arith, length-append ct r)))
    | inr (r, g) ↦
        subst (λ t. strn_equal t cp (min (length t) (length cp)) ≡ true) g
          (strn_==_comm (cp ++ r) cp (min (length (cp ++ r)) (length cp))
            ∙ strn_equal-front cp r (min (length (cp ++ r)) (length cp)) (omega arith))
  ],
)
