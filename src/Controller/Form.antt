-- ===== src/Controller/Form.antt =====
-- `FormProcessor` of lib/src/controller.cc: the data processor of a form, over the post processor of
-- libmicrohttpd.
pub mod Told
pub mod Refusals
use cppmhd.Prelude.{
  ℕ, Bool, true, false, Option, none, some, List, [], ◌∷◌, ◌++◌, Str, str_eq, ◌==◌, if◌then◌else◌,
}
use cppmhd.Http.Connection.{parse_failed}

-- `kN_`, `fN_`, `cT_` and `tE_`.
pub record Names : Type 0 where
  pub key_name : Str
  pub file_name : Str
  pub content_type : Str
  pub transfer_encoding : Str

abbrev pub no_names : Names
no_names = record { key_name = []; file_name = []; content_type = []; transfer_encoding = [] }

-- The arguments of a call of `formIter`; a null pointer is `none`.
pub record Piece : Type 0 where
  pub key : Option Str
  pub file : Option Str
  pub kind : Option Str
  pub encoding : Option Str
  pub bytes : Option Str
  pub off : ℕ
  pub size : ℕ

-- The arguments of a call of the controller's `onData`.
pub record FormCall : Type 0 where
  pub names : Names
  pub bytes : Option Str
  pub off : ℕ
  pub size : ℕ
  pub finish : Bool

-- What one call of `MHD_post_process` does: it calls the iterator with a piece and goes on with what
-- that returns, or ends with a new state and MHD_OK or not.
pub data Parsing {ℓ} (P : Type ℓ) : Type ℓ where
  ends : P → Bool → Parsing P
  calls : Piece → (Bool → Parsing P) → Parsing P

-- A form processor with its post processor, and the calls that its controller has got so far.
pub record FormProcessor {ℓ} (P : Type ℓ) : Type ℓ where
  pub pp : P
  pub names : Names
  pub told : List FormCall

-- `if (key && kN_ != key) kN_ = key`
unfoldable pub refreshed : Str → Option Str → Str
refreshed old none = old
refreshed old (some new) = if str_eq old new then old else new

unfoldable pub renamed : Names → Piece → Names
unfolding refreshed
renamed ns p = record {
  key_name = refreshed ns.key_name p.key;
  file_name = refreshed ns.file_name p.file;
  content_type = refreshed ns.content_type p.kind;
  transfer_encoding = refreshed ns.transfer_encoding p.encoding;
}

abbrev pub call_of : Names → Piece → FormCall
call_of ns p = record { names = ns; bytes = p.bytes; off = p.off; size = p.size; finish = false }

abbrev pub finish_call : Names → FormCall
finish_call ns = record { names = ns; bytes = none; off = 0; size = 0; finish = true }

-- `MHD_post_process`, and what the controller's `onData` answers to a call after those before it.
module _ {ℓ} {P : Type ℓ} (post_process : P → Option Str → ℕ → Parsing P)
    (accepts : List FormCall → FormCall → Bool) where
  -- `formIter` and the `onData` that it calls: whether it returns MHD_OK.
  unfoldable pub on_piece : Piece → FormProcessor P → Bool × FormProcessor P
  unfolding renamed
  on_piece p fp =
      let ns = renamed fp.names p in
      let c = call_of ns p in
      (accepts fp.told c, record fp { names = ns; told = fp.told ++ c ∷ [] })

  unfoldable pub run : Parsing P → FormProcessor P → Bool × FormProcessor P
  unfolding on_piece
  run (ends pp ok) fp = (ok, record fp { pp = pp })
  run (calls p k) fp = let (ok, fp') = on_piece p fp in run (k ok) fp'

  -- `FormProcessor::onData`: the number of bytes taken, and what is left behind. Its assertions hold
  -- and have no case here: `onConnection` sets a processor only when `buildPostProcessor` has made
  -- `pp_`, and the kind that a post processor hands to its iterator is always `MHD_POSTDATA_KIND`.
  unfoldable pub on_data : Option Str → ℕ → FormProcessor P → ℕ × FormProcessor P
  unfolding run
  on_data bytes size fp =
      if size == 0
      then (0, record fp { told = fp.told ++ finish_call fp.names ∷ [] })
      else let (ok, fp') = run (post_process fp.pp bytes size) fp in
        (if ok then size else parse_failed, fp')
