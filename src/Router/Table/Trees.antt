-- ===== src/Router/Table/Trees.antt =====
-- The trees of all methods as one table, under `RawBuilder::insert`, `sort` and `buildChild`.

use cppmhd.Prelude.{
  suc, ◌≡◌, refl, inl, inr, Bool, false, none, List, [], ◌∷◌, Str, ◌==◌, ltb, if◌then◌else◌, arith,
  ap, ap₂, Bool-cases, ◌∙◌, All,
}
use cppmhd.Core.{HttpMethod, method_index}
use cppmhd.Utils.Regex.{Pcre}
use cppmhd.Router.Node.{Node, Nodes, node, nil, cons, Handler, height}
use cppmhd.Router.Forward.{Params, RouterTrees, reply, forward}
use cppmhd.Router.Builder.{dispatch_method, place, sort, build_child, build_children, build_all}
use cppmhd.Router.Radix.Lookup.{lookup}
use cppmhd.Router.Radix.Forwarding.{forward_loop-lookup}
use cppmhd.Router.Table.Roots.{IsRoot}

-- The first tree of the method decides.
unfoldable pub look : List RouterTrees → HttpMethod → Str → Handler
look [] m path = none
look (t ∷ ts) m path =
    if method_index t.mtd == method_index m then lookup t.root path else look ts m path

abbrev pub AreRoots : List RouterTrees → Type 0
AreRoots = All (λ t. IsRoot t.root)

-- `forward` reads the table, and leaves the parameters alone.
pub forward-look :
    (pcre : Pcre) (ts : List RouterTrees) (m : HttpMethod) (path : Str) (ps : Params)
    → AreRoots ts
    → (tsr : Bool) × (forward pcre ts m path ps ≡ reply (look ts m path) ps tsr)
unfolding forward look
forward-look pcre [] m path ps h = (false, refl)
forward-look pcre (t ∷ ts) m path ps h = elim (Bool-cases (method_index t.mtd == method_index m)) [
  | inl e ↦
      let (tsr, found) =
        forward_loop-lookup pcre (suc (height t.root)) t.root path ps h.0.0 (omega arith) in
      (tsr, rw e found)
  | inr e ↦ let (tsr, found) = forward-look pcre ts m path ps h.1 in (tsr, rw e found)
]

-- The copy that `build` makes is the same tree.
mutual
  unfolding build_child

  build_child-same : (n : Node) → build_child n ≡ n
  build_child-same (node i ns) = ap (node i) (build_children-same ns)

  build_children-same : (ns : Nodes) → build_children ns ≡ ns
  build_children-same nil = refl
  build_children-same (cons n ns) = ap₂ cons (build_child-same n) (build_children-same ns)

pub build_all-same : (ts : List RouterTrees) → build_all ts ≡ ts
unfolding build_all
build_all-same [] = refl
build_all-same (t ∷ ts) =
    ap₂ (λ (r : Node) us. record t { root = r } ∷ us) (build_child-same t.root) (build_all-same ts)

-- No two trees have one method.
abbrev pub AreDistinct : List RouterTrees → Type 0
AreDistinct [] = Unit
AreDistinct (t ∷ ts) =
    All (λ u. (method_index u.mtd == method_index t.mtd) ≡ false) ts × AreDistinct ts

-- Sorting the trees by method does not change the table.
look-place :
    (t : RouterTrees) (us : List RouterTrees) (m : HttpMethod) (path : Str)
    → All (λ u. (method_index u.mtd == method_index t.mtd) ≡ false) us
    → look (place t us) m path ≡ look (t ∷ us) m path
unfolding place look
look-place t [] m path h = refl
look-place t (u ∷ us) m path h = ground (arith, look-place t us m path h.1)

All-place :
    (P : RouterTrees → Type 0) (t : RouterTrees) (us : List RouterTrees)
    → P t
    → All P us
    → All P (place t us)
unfolding place
All-place P t [] h k = (h, tt)
All-place P t (u ∷ us) h k =
    elim (Bool-cases (ltb (dispatch_method u.mtd) (dispatch_method t.mtd))) [
      | inl e ↦ rw e (k.0, All-place P t us h k.1)
      | inr e ↦ rw e (h, k)
    ]

pub All-sort : (P : RouterTrees → Type 0) (ts : List RouterTrees) → All P ts → All P (sort ts)
unfolding sort
All-sort P [] h = tt
All-sort P (t ∷ ts) h = All-place P t (sort ts) h.0 (All-sort P ts h.1)

pub look-sort :
    (ts : List RouterTrees) (m : HttpMethod) (path : Str)
    → AreDistinct ts
    → look (sort ts) m path ≡ look ts m path
unfolding sort look
look-sort [] m path h = refl
look-sort (t ∷ ts) m path h =
    look-place t (sort ts) m path (All-sort _ ts h.0)
    ∙ ap (λ rest. if method_index t.mtd == method_index m then lookup t.root path else rest)
        (look-sort ts m path h.1)

pub sort-AreRoots : (ts : List RouterTrees) → AreRoots ts → AreRoots (sort ts)
sort-AreRoots ts h = All-sort (λ t. IsRoot t.root) ts h
