-- ===== src/Controller/Tests.antt =====
-- A form of two fields, one of which its controller refuses.
use cppmhd.Prelude.{
  ℕ, zero, suc, ◌≡◌, ◌↔◌, ◌⊎◌, refl, Bool, true, false, Option, none, some, List, [], ◌∷◌, ◌++◌,
  Str, codes, arith,
}
use cppmhd.Http.Server.{Server}
use cppmhd.Http.Connection.{parse_failed, connection_cb, waits}
use cppmhd.Http.Tests.{demo, posted, receiving}
use cppmhd.Controller.Form.{
  Piece, FormCall, Parsing, ends, calls, FormProcessor, no_names, finish_call, on_data,
}
use cppmhd.Controller.Form.Told.{given, calls_for, all_data, all_pieces, on_data-told}
use cppmhd.Controller.Form.Refusals.{Aborts, Whole, Stopped, on_data-ends}
use cppmhd.Controller.ContentType.{is_prefix_of_array, multipart, is_prefix_of_array_iff}
use cppmhd.Controller.Uploads.{taken, IsRefused, connection_cb-form}

abbrev field : Option Str → Str → Piece
field key value = record {
  key = key;
  file = none;
  kind = none;
  encoding = none;
  bytes = some value;
  off = 0;
  size = 2;
}

-- The first data has the beginning of a field, and all later data its end and another field.
abbrev post_process : ℕ → Option Str → ℕ → Parsing ℕ
post_process zero bytes n = calls (field (some (codes "name")) (codes "an")) (λ ok. ends 1 ok)
post_process (suc k) bytes n = calls (field none (codes "tt")) (λ ok. elim ok [
  | Bool.true ↦ calls (field (some (codes "age")) (codes "42")) (λ ok'. ends 2 ok')
  | Bool.false ↦ ends 2 false
])

-- No more than two pieces are accepted.
abbrev accepts : List FormCall → FormCall → Bool
accepts [] c = true
accepts (a ∷ []) c = true
accepts (a ∷ b ∷ cs) c = c.finish

abbrev fresh : FormProcessor ℕ
fresh = record { pp = 0; names = no_names; told = [] }

abbrev chunks : List (Option Str × ℕ)
chunks = (some (codes "name=an"), 7) ∷ (some (codes "tt&age=42"), 9) ∷ []

on_data-told_example :
    (on_data post_process accepts none 0 (all_data post_process accepts chunks fresh)).1.told
    ≡ calls_for [] (all_pieces post_process accepts chunks fresh)
      ++ finish_call (given (all_pieces post_process accepts chunks fresh)) ∷ []
on_data-told_example =
    on_data-told post_process accepts chunks 0 [] (omega arith, (omega arith, tt))

-- What is left when the first piece has come.
abbrev begun : FormProcessor ℕ
begun = record {
  pp = 1;
  names = record no_names { key_name = codes "name" };
  told =
      record {
        names = record no_names { key_name = codes "name" };
        bytes = some (codes "an");
        off = 0;
        size = 2;
        finish = false;
      }
      ∷ [];
}

second-Aborts : Aborts (post_process 1 (some (codes "data")) 9)
unfolding Aborts
second-Aborts = ((2, refl), ((2, refl), tt))

on_data-ends_example :
    let (n, fp) = on_data post_process accepts (some (codes "data")) 9 begun in
    (Whole post_process accepts begun.told fp.told × ((n ≡ 9) ⊎ (n ≡ parse_failed)))
    ⊎ (Stopped post_process accepts begun.told fp.told × (n ≡ parse_failed))
on_data-ends_example =
    on_data-ends post_process accepts (some (codes "data")) 9 begun (omega arith) second-Aborts

-- The demonstration server with this form.
abbrev form_server : Server
form_server = record demo {
  on_data = λ id req bytes n. (some id, (on_data post_process accepts bytes n begun).0);
}

connection_cb-form_example :
    let fp = (on_data post_process accepts (some (codes "data")) 9 begun).1 in
    let to = taken form_server (posted 9) receiving 1 in
    ((connection_cb form_server (some receiving) (posted 9) ≡ waits to 0)
      × Whole post_process accepts begun.told fp.told)
    ⊎ IsRefused form_server (posted 9) receiving to
connection_cb-form_example =
    connection_cb-form post_process accepts begun form_server (posted 9) receiving 1 (λ on e. cc)
      (λ e. cc) (omega arith) refl (omega arith) (omega arith) second-Aborts refl

is_prefix_of_array_iff_example : (is_prefix_of_array (some (codes "multi")) multipart ≡ true) ↔ (
    ((r : Str) × (codes "multi" ++ r ≡ multipart)) ⊎ ((r : Str) × (multipart ++ r ≡ codes "multi")))
is_prefix_of_array_iff_example = is_prefix_of_array_iff (codes "multi") multipart
