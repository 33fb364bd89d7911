-- ===== src/Protobuf/RoundTrip.antt =====
-- What of a bundle arrives at the peer: `from_proto` after `to_proto` (src/network/protobuf.rs).
use mathlib.Core.Path.{ap₂}
use rusty_bundle.Prelude.{
  ◌%◌, ◌^◌, ◌<◌, List, [], ◌∷◌, map, Option, none, some, ◌≡◌, refl, arith, ap, unwrap_or,
}
use rusty_bundle.Model.{
  Uuid, DateTime, PlainNode, Bundle, BundleKind, data_msg, ack, request_sv, summary_vector,
  MsgStatus,
}
use rusty_bundle.Protobuf.{Formats, to_proto, from_proto, kind_of, kind_from, parse_uuid}

-- An id is read back from its text, and an instant from its seconds, less the nanoseconds.
pub record FormatLaws (f : Formats) : Type 0 where
  pub parse_str-to_string : (u : Uuid) → f.parse_str (f.uuid_to_string u) ≡ some u
  pub from_timestamp-timestamp :
      (t : DateTime) → f.from_timestamp (f.timestamp t) ≡ some (record t { nanos = 0 })

-- What the message keeps of a kind: the control messages become data bundles.
abbrev pub sent_kind : Formats → BundleKind → BundleKind
sent_kind f (data_msg msg) = data_msg msg
sent_kind f (ack i) = ack i
sent_kind f (request_sv from) = data_msg (f.uuid_to_string from)
sent_kind f (summary_vector ids) = data_msg (f.join (map f.uuid_to_string ids))

module _ (f : Formats) (laws : FormatLaws f) where
  parse_uuid-to_string : (u : Uuid) → parse_uuid f (f.uuid_to_string u) ≡ u
  parse_uuid-to_string u = rw laws.parse_str-to_string

  map-parse_uuid : (us : List Uuid) → map (parse_uuid f) (map f.uuid_to_string us) ≡ us
  map-parse_uuid [] = refl
  map-parse_uuid (u ∷ us) = ap₂ ◌∷◌ (parse_uuid-to_string u) (map-parse_uuid us)

  kind_from-kind_of : (k : BundleKind) → kind_from f (kind_of f k).0 (kind_of f k).1 ≡ sent_kind f k
  unfolding kind_of kind_from
  kind_from-kind_of (data_msg msg) = refl
  kind_from-kind_of (ack i) = ap ack (parse_uuid-to_string i)
  kind_from-kind_of (request_sv from) = refl
  kind_from-kind_of (summary_vector ids) = refl

  no_engine : (e : Option ⊥) → none ≡ e
  no_engine none = refl
  no_engine (some e) = absurd e

  node_back :
      (n : PlainNode)
      → n.port < 2 ^ 16
      → ◌≡◌ {A = PlainNode}
          (record {
            id = parse_uuid f (f.uuid_to_string n.id);
            name = n.name;
            address = n.address;
            port = n.port % 2 ^ 16;
            peers = map (parse_uuid f) (map f.uuid_to_string n.peers);
            routing_engine = none;
          })
          n
  node_back n h = λ i. record {
    id = parse_uuid-to_string n.id i;
    name = n.name;
    address = n.address;
    port = port_back i;
    peers = map-parse_uuid n.peers i;
    routing_engine = no_engine n.routing_engine i;
  }
    where
      port_back : n.port % 2 ^ 16 ≡ n.port
      port_back = omega arith

  -- A bundle whose ports are `u16` arrives with its id, nodes and ttl, its timestamp cut to whole
  -- seconds, and the status pending, whatever its status was. Its kind arrives if it is data or an
  -- acknowledgement; a request or a summary vector arrives as a data bundle of its text.
  pub from_proto-to_proto :
      (b : Bundle)
      → b.source.port < 2 ^ 16
      → b.destination.port < 2 ^ 16
      → from_proto f (to_proto f b) ≡ record b {
        timestamp = record b.timestamp { nanos = 0 };
        kind = sent_kind f b.kind;
        shipment_status = MsgStatus.pending;
      }
  unfolding from_proto to_proto
  from_proto-to_proto b hs hd = λ i. record {
    id = parse_uuid-to_string b.id i;
    source = node_back b.source hs i;
    destination = node_back b.destination hd i;
    timestamp = time_back i;
    ttl = b.ttl;
    kind = kind_from-kind_of b.kind i;
    shipment_status = MsgStatus.pending;
  }
    where
      time_back :
          unwrap_or (f.from_timestamp (f.timestamp b.timestamp)) f.epoch
          ≡ record b.timestamp { nanos = 0 }
      time_back = rw laws.from_timestamp-timestamp
