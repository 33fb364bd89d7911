-- ===== src/Model.antt =====
-- src/routing/model.rs: nodes, bundles and their lifecycle; src/routing/ack.rs: the bundle that
-- acknowledges another.
-- A `Uuid` is a 128-bit value that the program only compares; fresh ones (`new_v4`, `new_v5`) and
-- the clock of chrono are arguments. A `DateTime` is an instant in chrono's serialised form.
pub mod Expiry
pub mod Ack
use rusty_bundle.Prelude.{ℕ, String, Bool, true, false, List, Option, none, some, ◌==◌, any}
use rusty_bundle.Prelude.Int.{ℤ, lt_int, as_i64}

abbrev pub Uuid : Type 0
Uuid = ℕ

pub record DateTime : Type 0 where
  pub seconds : ℤ
  pub nanos : ℕ

-- `E` is the type of the node's routing engine. The field is `#[serde(skip)]`: a node inside a
-- bundle or a registry record that was read from a file or a socket has none.
pub record Node (E : Type 0) : Type 0 where
  pub id : Uuid
  pub name : String
  pub address : String
  pub port : ℕ
  pub peers : List Uuid
  pub routing_engine : Option E

-- A node as it is stored and sent.
abbrev pub PlainNode : Type 0
PlainNode = Node ⊥

pub skip_engine : {E : Type 0} → Node E → PlainNode
skip_engine n = record {
  id = n.id;
  name = n.name;
  address = n.address;
  port = n.port;
  peers = n.peers;
  routing_engine = none;
}

-- `new_v5` is `Uuid::new_v5` in the fixed namespace, `make_engine` is `RoutingEngine::new`.
unfoldable pub new_node :
    {E : Type 0}
    → (new_v5 : String → Uuid) → (make_engine : Uuid → List Uuid → String → E) → String
    → String
    → ℕ
    → List Uuid
    → Node E
new_node new_v5 make_engine name address port peers =
    let id = new_v5 name in
    record {
      id = id;
      name = name;
      address = address;
      port = port;
      peers = peers;
      routing_engine = some (make_engine id peers name);
    }

pub data MsgStatus : Type 0 where
  pending in_transit delivered expired : MsgStatus

pub data BundleKind : Type 0 where
  data_msg : String → BundleKind
  ack : Uuid → BundleKind
  request_sv : Uuid → BundleKind
  summary_vector : List Uuid → BundleKind

pub record Bundle : Type 0 where
  pub id : Uuid
  pub source : PlainNode
  pub destination : PlainNode
  pub timestamp : DateTime
  pub ttl : ℕ
  pub kind : BundleKind
  pub shipment_status : MsgStatus

-- `matches!(kind, BundleKind::Data { .. })`
abbrev pub is_data : BundleKind → Bool
is_data (data_msg m) = true
is_data _ = false

-- `matches!(kind, BundleKind::Ack { .. })`
abbrev pub is_ack : BundleKind → Bool
is_ack (ack i) = true
is_ack _ = false

-- `BundleKind::Ack { ack_bundle_id } => *ack_bundle_id == data_id, _ => false`
abbrev pub acknowledges : Uuid → BundleKind → Bool
acknowledges data_id (ack i) = i == data_id
acknowledges data_id _ = false

-- chrono: the current instant, and `now.signed_duration_since(t).num_seconds()`.
pub record Clock : Type 0 where
  pub now : DateTime
  pub num_seconds : DateTime → DateTime → ℤ

unfoldable pub is_expired : Clock → Bundle → Bool
unfolding as_i64
is_expired c b = let age = c.num_seconds c.now b.timestamp in lt_int (as_i64 b.ttl) age

-- `id` is the value of `Uuid::new_v4()`.
unfoldable pub new_bundle : Clock → (id : Uuid) → PlainNode → PlainNode → BundleKind → ℕ → Bundle
new_bundle c id source destination kind ttl = record {
  id = id;
  source = source;
  destination = destination;
  timestamp = c.now;
  ttl = ttl;
  kind = kind;
  shipment_status = pending;
}
