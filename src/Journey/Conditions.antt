-- ===== src/Journey/Conditions.antt =====
-- When `route_bundle` (src/routing/engine.rs) can hand a bundle on, and when it can deliver it.
use rusty_bundle.Prelude.{
  List, [], ◌∷◌, ◌++◌, Option, true, false, ◌≡◌, leb, ◌==◌, any, contains, length, unwrap_or,
}
use rusty_bundle.Model.{Uuid, Bundle, pending, is_expired}
use rusty_bundle.Disk.{Serde}
use rusty_bundle.Storage.{has_id}
use rusty_bundle.Storage.Contents.{live, admits}
use rusty_bundle.Storage.Access.{IsReliable}
use rusty_bundle.Protobuf.{Formats, to_proto, from_proto}
use rusty_bundle.Registry.{PeerRecord}
use rusty_bundle.Engine.{State, Times}
use rusty_bundle.Engine.Recipients.{reachable}
use rusty_bundle.Engine.Branches.{engine_holds}
use rusty_bundle.Engine.Delivery.{kept_as_delivered}

-- The bundle as it arrives.
abbrev pub sent : Formats → Bundle → Bundle
sent f b = from_proto f (to_proto f b)

-- The registry server returns `p` among the connected peers, and the answer of `p` to the request
-- for its summary vector lacks `id`, or the request fails.
pub record Lacks {Text : Type 0} (id : Uuid) (p : PeerRecord) (st : State Text) : Type 0 where
  pub before : List PeerRecord
  pub after : List PeerRecord
  pub vectors_before : List (Option (List Uuid))
  pub vector : Option (List Uuid)
  pub vectors_after : List (Option (List Uuid))
  pub near : reachable st ≡ before ++ p ∷ after
  pub answers : st.net.vectors ≡ vectors_before ++ vector ∷ vectors_after
  pub place : length before ≡ length vectors_before
  pub unknown : contains (unwrap_or vector []) id ≡ false

-- A node on the way of `b`, whose store admits it, and which has `p` to hand it to.
pub record CanRelay (j : Serde) (t : Times) (b : Bundle) (p : PeerRecord) (st : State j.Text)
    : Type 0 where
  pub reliable : IsReliable st.bundle_manager.storage
  pub unexpired : is_expired t.tested b ≡ false
  pub elsewhere : (st.node_id == b.destination.id) ≡ false
  pub waits : b.shipment_status ≡ pending
  pub admitted :
      admits st.bundle_manager.storage.capacity b (live t.stored (engine_holds j st)) ≡ true
  pub lacks : Lacks b.id p st

-- The destination of `b`, with a place for the new acknowledgement, which it has `p` to hand to.
pub record CanDeliver (j : Serde) (t : Times) (fresh : Uuid) (b : Bundle) (p : PeerRecord)
    (st : State j.Text) : Type 0 where
  pub reliable : IsReliable st.bundle_manager.storage
  pub unexpired : is_expired t.tested b ≡ false
  pub here : (st.node_id == b.destination.id) ≡ true
  pub new :
      any
        (has_id fresh)
        (kept_as_delivered t st.bundle_manager.storage.capacity b (engine_holds j st))
      ≡ false
  pub room :
      leb st.bundle_manager.storage.capacity (
        length (
          live t.acked
            (kept_as_delivered t st.bundle_manager.storage.capacity b (engine_holds j st))))
      ≡ false
  pub lacks : Lacks fresh p st
