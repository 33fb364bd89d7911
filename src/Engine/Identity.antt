-- ===== src/Engine/Identity.antt =====
-- What `route_bundle` (src/routing/engine.rs) leaves as it is: the node's id, peers and registry.
use rusty_bundle.Prelude.{List, ◌≡◌, arith}
use rusty_bundle.Model.{Uuid, Bundle}
use rusty_bundle.Disk.{Serde}
use rusty_bundle.Registry.{PeerRecord}
use rusty_bundle.Engine.{RoutingEngine, State, Times}
use rusty_bundle.Engine.Route.{propagate, route_ack, deliver, forward, route_data, route_bundle}

module _ (j : Serde) where
  -- The engine but for its store.
  pub record SameNode (e e' : RoutingEngine j.Text) : Type 0 where
    pub same_id : e'.node_id ≡ e.node_id
    pub same_peers : e'.peers ≡ e.peers
    pub same_registry : e'.registry_address ≡ e.registry_address
    pub same_server : e'.server ≡ e.server

  deliver-SameNode :
      (t : Times) (fresh : Uuid) (b : Bundle) (ps : List PeerRecord) (st : State j.Text)
      → SameNode st.engine (deliver j t fresh b ps st).1.engine
  unfolding deliver propagate
  deliver-SameNode t fresh b ps st = ground arith

  forward-SameNode :
      (t : Times) (b : Bundle) (ps : List PeerRecord) (st : State j.Text)
      → SameNode st.engine (forward j t b ps st).1.engine
  unfolding forward
  forward-SameNode t b ps st = ground arith

  route_ack-SameNode :
      (t : Times) (b : Bundle) (st : State j.Text)
      → SameNode st.engine (route_ack j t b st).1.engine
  unfolding route_ack propagate
  route_ack-SameNode t b st = ground arith

  pub route_bundle-SameNode :
      (t : Times) (fresh : Uuid) (b : Bundle) (st : State j.Text)
      → SameNode st.engine (route_bundle j t fresh b st).1.engine
  unfolding route_bundle route_data
  route_bundle-SameNode t fresh b st =
      grind (arith, deliver-SameNode, forward-SameNode, route_ack-SameNode)
