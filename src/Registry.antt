-- ===== src/Registry.antt =====
-- src/network/server.rs: the registry of nodes and their connections.
-- A registry is the vector behind the lock, and whether the lock is poisoned. A connection is the
-- list of what its reads return.
pub mod Records
pub mod Connections
pub mod StaleClose
pub mod Wire
use rusty_bundle.Prelude.{
  ℕ, String, List, [], ◌∷◌, ◌++◌, map, Option, none, some, Bool, true, false, not, ◌&&◌, ◌||◌, ◌==◌,
  if◌then◌else◌, any, contains, retain, modify_first,
}
use text.Mathlib.Text.{◌==◌ as str_eq}
use rusty_bundle.Model.{Uuid, PlainNode}

pub data ConnectionStatus : Type 0 where
  connected disconnected : ConnectionStatus

pub record PeerRecord : Type 0 where
  pub node : PlainNode
  pub status : ConnectionStatus

pub record Registry : Type 0 where
  pub records : List PeerRecord
  pub poisoned : Bool

pub data ServerRequest : Type 0 where
  register : PlainNode → ServerRequest
  get_connected : List Uuid → ServerRequest

pub data ServerResponse : Type 0 where
  ok : ServerResponse
  peers : List PeerRecord → ServerResponse
  error : String → ServerResponse

abbrev pub new_server : Registry
new_server = record { records = []; poisoned = false }

-- `record.status == ConnectionStatus::Connected`
abbrev pub is_connected : PeerRecord → Bool
is_connected r = elim r.status [ connected ↦ true | disconnected ↦ false ]

-- `|r| r.node.id == id`
abbrev pub is_node : Uuid → PeerRecord → Bool
is_node id r = r.node.id == id

abbrev pub is_empty : List Uuid → Bool
is_empty [] = true
is_empty (x ∷ xs) = false

-- An empty request asks for all.
unfoldable pub get_connected_peers : List Uuid → Registry → List PeerRecord
get_connected_peers requested_ids g =
    if g.poisoned
    then []
    else retain
        (λ r. is_connected r && (is_empty requested_ids || contains requested_ids r.node.id))
        g.records

abbrev pub connect_as : PlainNode → PeerRecord
connect_as node = record { node = node; status = connected }

-- The record of the node's id is renewed, or a new one is added.
unfoldable pub register_records : PlainNode → List PeerRecord → List PeerRecord
register_records node records =
    if any (is_node node.id) records
    then modify_first (is_node node.id) (λ _. connect_as node) records
    else records ++ connect_as node ∷ []

unfoldable pub register_node : PlainNode → Registry → ServerResponse × Registry
register_node node g =
    if g.poisoned
    then (error "Registry lock poisoned", g)
    else (ok, record g { records = register_records node g.records })

abbrev pub disconnect : PeerRecord → PeerRecord
disconnect r = record r { status = disconnected }

-- `Connection closed - mark node as disconnected`
unfoldable pub close : Option Uuid → Registry → Registry
close none g = g
close (some id) g =
    if g.poisoned then g else record g { records = modify_first (is_node id) disconnect g.records }

-- `disconnect_server`, before it ends the process.
unfoldable pub disconnect_server : Registry → Registry
disconnect_server g = if g.poisoned then g else record g { records = map disconnect g.records }

unfoldable pub verify_unique_name : String → Registry → Bool
verify_unique_name name g =
    if g.poisoned then false else not (any (λ r. str_eq r.node.name name) g.records)

-- What a read returns: the end of the stream, an error, or bytes that are a request or are not.
pub data Received : Type 0 where
  closed failed : Received
  invalid : (message : String) → Received
  request : ServerRequest → Received

-- The thread of a connection, between two reads: the node that registered on it, or that it ended.
pub data Connection : Type 0 where
  open_as : Option Uuid → Connection
  ended : Connection

-- One turn of the loop of `handle_client`; the end of the loop marks the node as disconnected.
unfoldable pub handle_read :
    Option Uuid → Received → Registry → Connection × List ServerResponse × Registry
handle_read node_id closed g = (ended, [], close node_id g)
handle_read node_id failed g = (ended, [], close node_id g)
handle_read node_id (invalid message) g = (open_as node_id, error message ∷ [], g)
handle_read node_id (request (register node)) g =
    let (response, g') = register_node node g in (open_as (some node.id), response ∷ [], g')
handle_read node_id (request (get_connected requested_ids)) g =
    (open_as node_id, peers (get_connected_peers requested_ids g) ∷ [], g)

-- `handle_client` over all reads of a connection, with the responses. No more reads is the end of
-- the stream.
unfoldable pub handle_client :
    Connection → List Received → Registry → List ServerResponse × Registry
handle_client ended rs g = ([], g)
handle_client (open_as node_id) [] g = ([], close node_id g)
handle_client (open_as node_id) (r ∷ rs) g =
    let (connection, responses, g1) = handle_read node_id r g in
    let (rest, g2) = handle_client connection rs g1 in (responses ++ rest, g2)
