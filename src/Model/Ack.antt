-- ===== src/Model/Ack.antt =====
-- src/routing/ack.rs
use rusty_bundle.Model.{Uuid, Bundle, Clock, ack, pending}

-- `id` is the value of `Uuid::new_v4()`.
unfoldable pub new_ack : Clock → (id : Uuid) → Bundle → Bundle
new_ack c id delivered_bundle = record {
  id = id;
  source = delivered_bundle.destination;
  destination = delivered_bundle.source;
  timestamp = c.now;
  ttl = delivered_bundle.ttl;
  kind = ack delivered_bundle.id;
  shipment_status = pending;
}
