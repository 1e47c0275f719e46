-- ===== src/Router/Ending/Heights.antt =====
-- The height of a child.
use cppmhd.Prelude.{ℕ, zero, suc, ◌≤◌, ◌<◌, ◌≡◌, some, arith}
use cppmhd.Router.Node.{Node, Nodes, node, nil, cons, children, child_at, height, height_nodes}

pub child_at-height_nodes :
    (k : ℕ) (ns : Nodes) (c : Node) → child_at k ns ≡ some c → height c ≤ height_nodes ns
unfolding child_at height
child_at-height_nodes k nil c e = cc
child_at-height_nodes zero (cons n ns) c e = ground (arith, e)
child_at-height_nodes (suc k) (cons n ns) c e = omega (arith, child_at-height_nodes k ns c e)

-- A child is lower than its node.
pub child_at-height : (k : ℕ) (n c : Node) → child_at k (children n) ≡ some c → height c < height n
unfolding height
child_at-height k (node i ns) c e = omega (arith, child_at-height_nodes k ns c e)
