-- ===== src/Protobuf.antt =====
-- src/network/protobuf.rs: bundles to and from the messages of src/network/bundle.proto.
pub mod RoundTrip
use rusty_bundle.Prelude.{ℕ, ◌%◌, ◌^◌, String, List, [], ◌∷◌, map, Option, none, some, unwrap_or}
use rusty_bundle.Prelude.Int.{ℤ}
use rusty_bundle.Model.{
  Uuid, DateTime, PlainNode, Bundle, BundleKind, data_msg, ack, request_sv, summary_vector,
  MsgStatus,
}

-- The enums of bundle.proto. It has no status for `InTransit`.
pub data ProtoKind : Type 0 where
  data_kind ack_kind requestsv_kind summaryvec_kind : ProtoKind

pub data ProtoStatus : Type 0 where
  pending_status delivered_status expired_status : ProtoStatus

pub record ProtobufBundle : Type 0 where
  pub id : String
  pub source_id : String
  pub source_name : String
  pub source_address : String
  pub source_port : ℕ
  pub source_peers : List String
  pub destination_id : String
  pub destination_name : String
  pub destination_address : String
  pub destination_port : ℕ
  pub destination_peers : List String
  pub timestamp : ℤ
  pub ttl : ℕ
  pub kind : ProtoKind
  pub kind_data : String
  pub shipment_status : ProtoStatus

-- What the conversions call of uuid, chrono and the standard library.
pub record Formats : Type 0 where
  -- `uuid.to_string()`, `Uuid::parse_str(s).ok()` and `Uuid::default()`
  pub uuid_to_string : Uuid → String
  pub parse_str : String → Option Uuid
  pub nil_uuid : Uuid
  -- `join(",")`
  pub join : List String → String
  -- `t.timestamp()`, `DateTime::from_timestamp(secs, 0)` and `DateTime::default()`
  pub timestamp : DateTime → ℤ
  pub from_timestamp : ℤ → Option DateTime
  pub epoch : DateTime

module _ (f : Formats) where
  -- The pair that `From<&Bundle>` makes of the kind.
  unfoldable pub kind_of : BundleKind → ProtoKind × String
  kind_of (data_msg msg) = (data_kind, msg)
  kind_of (ack ack_bundle_id) = (ack_kind, f.uuid_to_string ack_bundle_id)
  kind_of (request_sv from) = (requestsv_kind, f.uuid_to_string from)
  kind_of (summary_vector ids) = (summaryvec_kind, f.join (map f.uuid_to_string ids))

  -- `impl From<&Bundle> for ProtobufBundle`; `port as u32` keeps every `u16`.
  unfoldable pub to_proto : Bundle → ProtobufBundle
  to_proto b =
      let (kind, kind_data) = kind_of b.kind in
      record {
        id = f.uuid_to_string b.id;
        source_id = f.uuid_to_string b.source.id;
        source_name = b.source.name;
        source_address = b.source.address;
        source_port = b.source.port;
        source_peers = map f.uuid_to_string b.source.peers;
        destination_id = f.uuid_to_string b.destination.id;
        destination_name = b.destination.name;
        destination_address = b.destination.address;
        destination_port = b.destination.port;
        destination_peers = map f.uuid_to_string b.destination.peers;
        timestamp = f.timestamp b.timestamp;
        ttl = b.ttl;
        kind = kind;
        kind_data = kind_data;
        shipment_status = pending_status;
      }

  -- `Uuid::parse_str(s).unwrap_or_default()`
  abbrev pub parse_uuid : String → Uuid
  parse_uuid s = unwrap_or (f.parse_str s) f.nil_uuid

  unfoldable pub kind_from : ProtoKind → String → BundleKind
  kind_from ack_kind kind_data = ack (parse_uuid kind_data)
  kind_from _ kind_data = data_msg kind_data

  -- `impl From<ProtobufBundle> for Bundle`; `port as u16` wraps.
  unfoldable pub from_proto : ProtobufBundle → Bundle
  from_proto p = record {
    id = parse_uuid p.id;
    source = record {
      id = parse_uuid p.source_id;
      name = p.source_name;
      address = p.source_address;
      port = p.source_port % 2 ^ 16;
      peers = map parse_uuid p.source_peers;
      routing_engine = none;
    };
    destination = record {
      id = parse_uuid p.destination_id;
      name = p.destination_name;
      address = p.destination_address;
      port = p.destination_port % 2 ^ 16;
      peers = map parse_uuid p.destination_peers;
      routing_engine = none;
    };
    timestamp = unwrap_or (f.from_timestamp p.timestamp) f.epoch;
    ttl = p.ttl;
    kind = kind_from p.kind p.kind_data;
    shipment_status = MsgStatus.pending;
  }
