-- ===== src/Journey/Arrival.antt =====
-- What becomes of a bundle that arrives at a node (src/network/client.rs) and is routed there.
use mathlib.Core.List.{Mem}
use rusty_bundle.Prelude.{true, false, ◌≡◌, ◌≢◌, refl, ◌==◌, any}
use rusty_bundle.Model.{Uuid, Bundle, ack, delivered, is_ack}
use rusty_bundle.Model.Ack.{new_ack}
use rusty_bundle.Disk.{Serde, SerdeLaws}
use rusty_bundle.Storage.{has_id, is_ack_for}
use rusty_bundle.Storage.Contents.{live, admits}
use rusty_bundle.Storage.Access.{IsReliable}
use rusty_bundle.Storage.Refinement.{get_bundle-Holds}
use rusty_bundle.BundleManager
use rusty_bundle.BundleManager.Refinement.{found_of}
use rusty_bundle.Protobuf.{Formats}
use rusty_bundle.Registry.{PeerRecord}
use rusty_bundle.Engine.{State, address_of}
use rusty_bundle.Engine.Route.{route_bundle, with_manager}
use rusty_bundle.Engine.Branches.{engine_holds}
use rusty_bundle.Engine.Legs.{route_bundle-hands, route_bundle-delivers}
use rusty_bundle.Engine.Settling.{route_bundle-settles}
use rusty_bundle.Client.{Codec, Moment}
use rusty_bundle.Client.Arrivals.{arrive}
use rusty_bundle.Journey.Conditions.{CanRelay, CanDeliver}

module _ (j : Serde) (laws : SerdeLaws j) (f : Formats) (codec : Codec) (m : Moment) (b : Bundle)
    (st : State j.Text) (r : IsReliable st.bundle_manager.storage)
    (unknown : any (has_id b.id) (engine_holds j st) ≡ false) (runtime : m.has_runtime ≡ true) where
  -- The node after it has looked for the bundle.
  abbrev looked_up : State j.Text
  looked_up = with_manager j st (BundleManager.has_bundle j b.id st.bundle_manager).1

  looked_up-same :
      (engine_holds j looked_up ≡ engine_holds j st)
      × IsReliable looked_up.bundle_manager.storage
      × (looked_up.bundle_manager.storage.capacity ≡ st.bundle_manager.storage.capacity)
  unfolding BundleManager.has_bundle
  looked_up-same =
      let h = (get_bundle-Holds j laws st.bundle_manager.storage r b.id).1 in
      (h.on_disk, h.reliable, h.limit)

  -- A bundle that is not in store is routed, if a runtime can be built.
  arrive-routes : arrive j f codec m b st ≡ (route_bundle j m.times m.fresh b looked_up).1
  unfolding arrive BundleManager.has_bundle
  arrive-routes = rw (found_of j laws b.id st.bundle_manager.storage r, unknown, runtime) refl

  pub arrive-hands :
      (p : PeerRecord)
      → is_ack b.kind ≡ false
      → CanRelay j m.times b p st
      → Mem (b, address_of p) (arrive j f codec m b st).net.log
  arrive-hands p k can =
      let (same, r', limit) = looked_up-same in
      let l = can.lacks in
      let ok' : admits looked_up.bundle_manager.storage.capacity b
            (live m.times.stored (engine_holds j looked_up))
          ≡ true =
        rw (limit, same) can.admitted in
      rw arrive-routes (
        route_bundle-hands j laws m.times m.fresh b looked_up r' l.before l.after p l.vectors_before
          l.vectors_after l.vector k can.unexpired can.elsewhere can.waits ok' l.near l.answers
          l.place l.unknown)

  pub arrive-delivers :
      (p : PeerRecord)
      → is_ack b.kind ≡ false
      → CanDeliver j m.times m.fresh b p st
      → let st' = arrive j f codec m b st in
        (any (is_ack_for b.id) (engine_holds j st') ≡ true)
        × Mem
            (new_ack m.times.acked m.fresh (record b { shipment_status = delivered }), address_of p)
            st'.net.log
  arrive-delivers p k can =
      let (same, r', limit) = looked_up-same in
      let l = can.lacks in
      rw arrive-routes (
        route_bundle-delivers j laws m.times m.fresh b looked_up r' l.before l.after p
          l.vectors_before l.vectors_after l.vector k can.unexpired can.here
          (rw (limit, same) (can.new, can.room)) l.near l.answers l.place l.unknown)

  pub arrive-settles :
      (d : Uuid)
      → b.kind ≡ ack d
      → b.id ≢ d
      → (st.node_id == b.destination.id) ≡ true
      → any (has_id d) (engine_holds j (arrive j f codec m b st)) ≡ false
  arrive-settles d k other home =
      rw arrive-routes
        (route_bundle-settles j laws m.times m.fresh b looked_up looked_up-same.1 d k other home)
