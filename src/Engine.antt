-- ===== src/Engine.antt =====
-- src/routing/engine.rs: the routing of one bundle through a node.
-- The calls of src/network/client.rs that the engine makes are answered by the network: a `Net`
-- holds the answers to come, in the order of the calls, and the bundles that were handed to a peer.
-- A destination is the pair of address and port that `format!("{}:{}", …)` prints.
pub mod AntiEntropy
pub mod Route
pub mod Sending
pub mod Recipients
pub mod Branches
pub mod Delivery
pub mod Handing
pub mod Legs
pub mod Settling
pub mod Invariant
pub mod Stable
pub mod Identity
pub mod Retrying
pub mod Carrying
pub mod Marking
pub mod Asking
use rusty_bundle.Prelude.{
  ℕ, suc, String, List, [], ◌∷◌, ◌++◌, map, Option, none, some, Bool, true, false, not, ◌&&◌, ◌||◌,
  ltb, ◌==◌, if◌then◌else◌, contains, retain, unwrap_or,
}
use rusty_bundle.Model.{
  Uuid, Bundle, MsgStatus, pending, in_transit, delivered, expired, Clock, is_ack, is_expired,
}
use rusty_bundle.Model.Ack.{new_ack}
use rusty_bundle.Disk.{Serde}
use rusty_bundle.BundleManager
use rusty_bundle.BundleManager.{BundleManager}
use rusty_bundle.Registry.{PeerRecord, Registry, new_server}

abbrev pub Destination : Type 0
Destination = String × ℕ

pub record Net : Type 0 where
  -- What `get_connected_peers_from_server` returns; no peers, once the list is used up.
  pub directories : List (List PeerRecord)
  -- The ids that its calls asked for, the last call first.
  pub asked : List (List Uuid)
  -- What `request_peer_sv` returns; an error, once the list is used up.
  pub vectors : List (Option (List Uuid))
  -- What `send_bundle` returns; false, once the list is used up.
  pub sendings : List Bool
  -- The calls of `send_bundle`, the last one first.
  pub log : List (Bundle × Destination)

pub record RoutingEngine (Text : Type 0) : Type 0 where
  pub node_id : Uuid
  pub peers : List Uuid
  pub registry_address : String
  pub server : Registry
  pub bundle_manager : BundleManager Text

-- The engine and the network around it.
pub record State (Text : Type 0) : Type 0 where
  pub engine : RoutingEngine Text
  pub open engine use *
  pub net : Net

-- The instants at which a call of `route_bundle` reads the clock: at the test of expiry, at its
-- first and second change of the store, and at the last.
pub record Times : Type 0 where
  pub tested : Clock
  pub stored : Clock
  pub acked : Clock
  pub marked : Clock

abbrev pub get_connected_peers_from_server : List Uuid → Net → List PeerRecord × Net
get_connected_peers_from_server ids n = elim n.directories [
  | [] ↦ ([], record n { asked = ids ∷ n.asked })
  | ps ∷ rest ↦ (ps, record n { directories = rest; asked = ids ∷ n.asked })
]

abbrev pub request_peer_sv : Net → Option (List Uuid) × Net
request_peer_sv n = elim n.vectors [ [] ↦ (none, n) | v ∷ rest ↦ (v, record n { vectors = rest }) ]

-- `send_bundle`, of which only the result and the call itself are seen here.
abbrev pub send_bundle : Bundle → Destination → Net → Bool × Net
send_bundle b to n = elim n.sendings [
  | [] ↦ (false, record n { log = (b, to) ∷ n.log })
  | r ∷ rest ↦ (r, record n { sendings = rest; log = (b, to) ∷ n.log })
]

-- `RoutingEngine::new`
unfoldable pub new_engine :
    (j : Serde) → Uuid → List Uuid → BundleManager j.Text → RoutingEngine j.Text
new_engine j node_id peers bundle_manager = record {
  node_id = node_id;
  peers = peers;
  registry_address = "127.0.0.1:9100";
  server = new_server;
  bundle_manager = bundle_manager;
}

-- The loop of `anti_entropy`: what the peer lacks is pushed at the end.
unfoldable pub collect_missing : List Uuid → List Bundle → List Bundle → List Bundle
collect_missing peer_sv missing_on_peer [] = missing_on_peer
collect_missing peer_sv missing_on_peer (i ∷ rest) =
    collect_missing peer_sv
      (if not (contains peer_sv i.id) then missing_on_peer ++ i ∷ [] else missing_on_peer) rest

unfoldable pub anti_entropy : List Bundle → List Uuid → List Bundle
anti_entropy local_sv peer_sv = collect_missing peer_sv [] local_sv

-- An error of `request_peer_sv` is an empty vector.
unfoldable pub get_peer_summary_vector : Net → List Uuid × Net
get_peer_summary_vector n = let (v, n') = request_peer_sv n in (unwrap_or v [], n')

abbrev pub address_of : PeerRecord → Destination
address_of p = (p.node.address, p.node.port)

-- The peers, and one more id if it is not among them.
abbrev pub with_id : List Uuid → Uuid → List Uuid
with_id peers id = if contains peers id then peers else peers ++ id ∷ []

-- The peers that the server returned, less this node itself.
unfoldable pub connected_peers : Uuid → List Uuid → Net → List PeerRecord × Net
connected_peers node_id requested_ids n =
    let (ps, n') = get_connected_peers_from_server requested_ids n in
    (retain (λ p. not (p.node.id == node_id)) ps, n')

-- `peers_needing_ack`: every peer is asked, and those that lack the bundle are kept.
unfoldable pub peers_needing : Uuid → List PeerRecord → Net → List PeerRecord × Net
peers_needing id [] n = ([], n)
peers_needing id (p ∷ ps) n =
    let (peer_sv, n1) = get_peer_summary_vector n in
    let (rest, n2) = peers_needing id ps n1 in
    (if not (contains peer_sv id) then p ∷ rest else rest, n2)

-- The loop that counts the successful sends.
unfoldable pub send_to_each : Bundle → List PeerRecord → Net → ℕ × Net
send_to_each b [] n = (0, n)
send_to_each b (p ∷ ps) n =
    let (sent, n1) = send_bundle b (address_of p) n in
    let (count, n2) = send_to_each b ps n1 in (if sent then suc count else count, n2)

-- The inner loop of the data branch: the results of the sends are not read.
unfoldable pub send_all : List Bundle → Destination → Net → Net
send_all [] to n = n
send_all (b ∷ bs) to n = send_all bs to (send_bundle b to n).1

abbrev pub is_nil : List Bundle → Bool
is_nil [] = true
is_nil (b ∷ bs) = false

-- The loop over the peers of the data branch, and whether it sent anything.
unfoldable pub forward_to_each : List Bundle → List PeerRecord → Net → Bool × Net
forward_to_each pending_bundles [] n = (false, n)
forward_to_each pending_bundles (p ∷ ps) n =
    let (peer_sv, n1) = get_peer_summary_vector n in
    let to_forward = anti_entropy pending_bundles peer_sv in
    let (later, n2) = forward_to_each pending_bundles ps (send_all to_forward (address_of p) n1) in
    (not (is_nil to_forward) || later, n2)
