-- ===== src/Router/Table/Roots.antt =====
-- The root of a method's tree: fresh, or holding static routes.
use cppmhd.Prelude.{
  ℕ, suc, ◌≡◌, refl, ◌⊎◌, inl, inr, Bool, true, false, not, ◌&&◌, none, some, [], ◌∷◌, Str, str_eq,
  if◌then◌else◌, is_some, length, arith, sym, subst,
}
use cppmhd.Utils.Regex.{Pcre}
use cppmhd.Router.Node.{Node, node, nil, info, raw_node, height}
use cppmhd.Router.Insert.{static_end, Insertion, insert, insert_loop}
use cppmhd.Router.Builder.{Added, add_route}
use cppmhd.Router.Radix.Strip.{strip}
use cppmhd.Router.Radix.Prefix.{IsPlain}
use cppmhd.Router.Radix.Lookup.{Starts, IsRadix, lookup}
use cppmhd.Router.Radix.Updates.{lookup-leaf}
use cppmhd.Router.Radix.Steps.{Inserts, insert_child_plain}
use cppmhd.Router.Radix.Insertion.{insert_loop-Inserts}
use cppmhd.Router.Table.Paths.{IsStatic, IsStatic-IsPlain, parse_path_segment-static}

abbrev pub fresh_root : Node
fresh_root = node raw_node nil

-- A static tree whose paths begin with a slash.
abbrev pub IsRoot : Node → Type 0
IsRoot n = IsRadix n × ((n ≡ fresh_root) ⊎ Starts b'/' (info n).path)

pub lookup-fresh_root : (q : Str) → lookup fresh_root q ≡ none
unfolding lookup strip
lookup-fresh_root [] = refl
lookup-fresh_root (c ∷ s) = refl

-- `Inserts`, and the root begins with a slash if the path does.
abbrev InsertsRoot : ℕ → Node → Str → Insertion → Type 0
InsertsRoot ctrl n path r =
    (i : Inserts n path ctrl [] r) × (Starts b'/' path → Starts b'/' (info i.after).path)

fresh_root-Inserts :
    (ctrl : ℕ) (path : Str)
    → IsPlain path
    → InsertsRoot ctrl fresh_root path (insert fresh_root path (some ctrl) [])
unfolding insert str_eq
fresh_root-Inserts ctrl path plain = (
  record {
    ok = true;
    after = node (static_end path (some ctrl) raw_node) nil;
    result = rw (insert_child_plain ctrl [] (length path) raw_node path plain);
    radix = (refl, refl, tt);
    starts = λ c h k. k;
    fresh = rw (lookup-fresh_root path);
    looked = λ q. rw (lookup-leaf path (some ctrl) raw_node q, lookup-fresh_root q);
  },
  λ s. s,
)

insert-loop :
    (n : Node) (path : Str) (ctrl : ℕ)
    → Starts b'/' (info n).path
    → insert n path (some ctrl) [] ≡ insert_loop (suc (height n)) n path (some ctrl) []
unfolding insert str_eq
insert-loop n path ctrl h = rw (ne (info n).path h)
  where
    ne : (p : Str) → Starts b'/' p → str_eq p [] ≡ false
    ne [] h = absurd h
    ne (x ∷ p) h = refl

insert-InsertsRoot :
    (ctrl : ℕ) (n : Node) (path : Str)
    → IsRoot n
    → IsPlain path
    → InsertsRoot ctrl n path (insert n path (some ctrl) [])
insert-InsertsRoot ctrl n path (h, inl e) plain =
    subst (λ m. InsertsRoot ctrl m path (insert m path (some ctrl) [])) (sym e)
      (fresh_root-Inserts ctrl path plain)
insert-InsertsRoot ctrl n path (h, inr begins) plain =
    subst (λ r. InsertsRoot ctrl n path r) (sym (insert-loop n path ctrl begins))
      (let i = insert_loop-Inserts ctrl [] (suc (height n)) n path h plain (omega arith) in
        (i, λ s. i.starts b'/' begins s))

-- What adding a static route does to a root.
pub record Adds (n : Node) (path : Str) (ctrl : ℕ) (r : Added) : Type 0 where
  pub ok : Bool
  pub after : Node
  pub result : r ≡ Added.added ok after
  pub root : IsRoot after
  pub fresh : ok ≡ not (is_some (lookup n path))
  pub looked : (q : Str) → lookup after q ≡ (if ok && str_eq path q then some ctrl else lookup n q)

-- Adding a static path to the tree of a method, be it fresh or of static routes, ends without undefined
-- behaviour. It returns true exactly if the path had no controller; then the map that the tree stands
-- for gets the controller at that path, and in any case it keeps every other. The tree stays one of
-- static routes.
pub add_route-Adds :
    (pcre : Pcre) (ctrl : ℕ) (n : Node) (path : Str)
    → IsRoot n
    → IsStatic pcre path
    → Adds n path ctrl (add_route pcre n path ctrl)
unfolding add_route
add_route-Adds pcre ctrl n path h v =
    let (full, parsed_to) = parse_path_segment-static pcre path v in
    let (i, begins) = insert-InsertsRoot ctrl n path h (IsStatic-IsPlain pcre path v) in
    record {
      ok = i.ok;
      after = i.after;
      result = rw (add_route, parsed_to, i.result);
      root = (i.radix, inr (begins v.begins));
      fresh = i.fresh;
      looked = i.looked;
    }
