-- ===== src/Router/Node.antt =====
-- The nodes of lib/src/router.h (`RouterNode`) and lib/src/router.cc (`RawNode`), which hold the
-- same fields. A handler is the address of a controller, or null. Children are owned by one node.
use cppmhd.Prelude.{
  ℕ, zero, suc, Bool, true, false, Option, none, some, List, [], ◌∷◌, Str, codes, ◌==◌,
  if◌then◌else◌,
}
use mathlib.Core.Option
use Prim.Native.Nat.{max}
use cppmhd.Utils.Regex.{Regex, no_regex}

pub data RouterNodeType : Type 0 where
  unknown root static_part param catch_all : RouterNodeType

-- The text of its formatter.
abbrev pub format_type : RouterNodeType → Str
format_type unknown = codes "unknown"
format_type root = codes "ROOT"
format_type static_part = codes "STATIC"
format_type param = codes "PARAM"
format_type catch_all = codes "CATCH_ALL"

abbrev pub is_param : RouterNodeType → Bool
is_param param = true
is_param _ = false

abbrev pub is_catch_all : RouterNodeType → Bool
is_catch_all catch_all = true
is_catch_all _ = false

abbrev pub is_root : RouterNodeType → Bool
is_root root = true
is_root _ = false

abbrev pub Handler : Type 0
Handler = Option ℕ

-- Every field of a node but its children.
pub record Info : Type 0 where
  pub path : Str
  pub indices : Str
  pub handle : Handler
  pub type : RouterNodeType
  pub re : Regex
  pub name : Str
  pub wildchild : Bool

mutual
  pub data Node : Type 0 where
    node : Info → Nodes → Node

  pub data Nodes : Type 0 where
    nil : Nodes
    cons : Node → Nodes → Nodes

abbrev pub info : Node → Info
info (node i ns) = i

abbrev pub children : Node → Nodes
children (node i ns) = ns

abbrev pub nodes : Nodes → List Node
nodes nil = []
nodes (cons n ns) = n ∷ nodes ns

-- `RawNode()`
abbrev pub raw_node : Info
raw_node = record {
  path = [];
  indices = [];
  handle = none;
  type = root;
  re = no_regex;
  name = [];
  wildchild = false;
}

-- `children(pos)`: null past the end.
unfoldable pub child_at : ℕ → Nodes → Option Node
child_at i nil = none
child_at zero (cons n ns) = some n
child_at (suc i) (cons n ns) = child_at i ns

-- `childrenCount()`, and `children.size()`
unfoldable pub children_count : Nodes → ℕ
children_count nil = 0
children_count (cons n ns) = suc (children_count ns)

-- The position of the first index that equals the character.
unfoldable pub index_of : ℕ → Str → Option ℕ
index_of c [] = none
index_of c (x ∷ xs) = if x == c then some 0 else Option.map suc (index_of c xs)

-- `indice(c)`: the child at the position of `c` among the indices.
unfoldable pub indice : Node → ℕ → Option Node
unfolding index_of child_at
indice n c = elim (index_of c (info n).indices) [ none ↦ none | some i ↦ child_at i (children n) ]

-- `children.emplace_back(child)`
unfoldable pub push_child : Nodes → Node → Nodes
push_child nil n = cons n nil
push_child (cons m ns) n = cons m (push_child ns n)

-- Writes through the pointer `children[i]`.
unfoldable pub set_child : ℕ → Node → Nodes → Nodes
set_child i n nil = nil
set_child zero n (cons m ns) = cons n ns
set_child (suc i) n (cons m ns) = cons m (set_child i n ns)

-- The longest way down, counted in nodes.
unfoldable mutual
  pub height : Node → ℕ
  height (node i ns) = suc (height_nodes ns)

  pub height_nodes : Nodes → ℕ
  height_nodes nil = 0
  height_nodes (cons n ns) = max (height n) (height_nodes ns)
