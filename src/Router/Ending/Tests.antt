-- ===== src/Router/Ending/Tests.antt =====
-- A tree with a parameter below it.
use cppmhd.Prelude.{Bool, ◌≢◌, some, [], ◌∷◌, codes}
use cppmhd.Core.{HttpMethod}
use cppmhd.Router.Node.{Node, node, nil, cons, raw_node, RouterNodeType}
use cppmhd.Router.Forward.{forward}
use cppmhd.Router.Insert.{insert}
use cppmhd.Router.Tests.{toy}
use cppmhd.Router.Ending.Forwarding.{forward-ends}
use cppmhd.Router.Ending.Inserting.{insert-ends}

abbrev wild : Node
wild =
    node (record raw_node { path = codes "/x/"; wildchild = Bool.true })
      (cons
        (node (record raw_node { path = codes ":"; type = RouterNodeType.param; handle = some 1 })
          nil)
        nil)

forward-ends_example :
    forward toy
      (record { mtd = HttpMethod.get; root = wild } ∷ [])
      HttpMethod.get
      (codes "/x/a/b")
      []
    ≢ cppmhd.Router.Forward.exhausted
forward-ends_example =
    forward-ends toy (record { mtd = HttpMethod.get; root = wild } ∷ []) HttpMethod.get
      (codes "/x/a/b") []

insert-ends_example : insert wild (codes "/y") (some 2) [] ≢ cppmhd.Router.Insert.exhausted
insert-ends_example = insert-ends wild (codes "/y") (some 2) []
