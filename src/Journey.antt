-- ===== src/Journey.antt =====
-- The way of a data bundle over a relay, and of its acknowledgement back: src/routing/engine.rs at
-- three nodes, with what src/network/protobuf.rs keeps of a bundle and the test of
-- src/network/client.rs whether a bundle that arrives is in store.
pub mod Conditions
pub mod Arrival
use mathlib.Core.List.{Mem}
use mathlib.Core.Path.{subst}
use rusty_bundle.Prelude.{
  ◌^◌, ◌<◌, List, [], ◌∷◌, ◌++◌, Option, Bool, true, false, ◌≡◌, ◌≢◌, refl, sym, ap, ◌∙◌, leb, ◌==◌,
  any, contains, length, unwrap_or,
}
use rusty_bundle.Model.{
  Uuid, Bundle, BundleKind, data_msg, ack, request_sv, summary_vector, MsgStatus, pending,
  delivered, is_ack, is_expired,
}
use rusty_bundle.Model.Ack.{new_ack}
use rusty_bundle.Disk.{Serde, SerdeLaws}
use rusty_bundle.Storage.{has_id, is_ack_for}
use rusty_bundle.Storage.Contents.{live, admits}
use rusty_bundle.Storage.Access.{held, IsReliable}
use rusty_bundle.Storage.Refinement.{get_bundle-Holds}
use rusty_bundle.BundleManager
use rusty_bundle.BundleManager.Refinement.{found_of}
use rusty_bundle.Protobuf.{Formats, to_proto, from_proto}
use rusty_bundle.Protobuf.RoundTrip.{FormatLaws, sent_kind, from_proto-to_proto}
use rusty_bundle.Registry.{PeerRecord}
use rusty_bundle.Engine.{State, Times, address_of}
use rusty_bundle.Engine.Route.{route_bundle, with_manager}
use rusty_bundle.Engine.Recipients.{reachable}
use rusty_bundle.Engine.Branches.{engine_holds}
use rusty_bundle.Engine.Delivery.{kept_as_delivered}
use rusty_bundle.Engine.Legs.{route_bundle-hands, route_bundle-delivers}
use rusty_bundle.Engine.Settling.{route_bundle-settles}
use rusty_bundle.Client.{Codec, Moment}
use rusty_bundle.Client.Arrivals.{arrive}
use rusty_bundle.Journey.Conditions.{sent, Lacks, CanRelay, CanDeliver}
use rusty_bundle.Journey.Arrival.{arrive-hands, arrive-delivers, arrive-settles}

sent_kind-ack : (f : Formats) (k : BundleKind) → is_ack (sent_kind f k) ≡ is_ack k
sent_kind-ack f (data_msg msg) = refl
sent_kind-ack f (ack i) = refl
sent_kind-ack f (request_sv from) = refl
sent_kind-ack f (summary_vector ids) = refl

module _ (j : Serde) (laws : SerdeLaws j) (f : Formats) (formats : FormatLaws f)
    (codec : Codec) where
  -- What the messages keep of a bundle.
  record SentAs (b b' : Bundle) : Type 0 where
    same_id : b'.id ≡ b.id
    same_source : b'.source ≡ b.source
    same_destination : b'.destination ≡ b.destination
    same_kind : b'.kind ≡ sent_kind f b.kind

  sent_lem :
      (b : Bundle) → b.source.port < 2 ^ 16 → b.destination.port < 2 ^ 16 → SentAs b (sent f b)
  sent_lem b hs hd =
      let e = from_proto-to_proto f formats b hs hd in
      record {
        same_id = ap (λ (x : Bundle). x.id) e;
        same_source = ap (λ (x : Bundle). x.source) e;
        same_destination = ap (λ (x : Bundle). x.destination) e;
        same_kind = ap (λ (x : Bundle). x.kind) e;
      }

  -- The way of a data bundle b over one relay, and of its acknowledgement back, with no failure of
  -- the file systems, with ports below 2^16, and with a runtime that can be built for each bundle that
  -- arrives. Where the source, the relay and the destination are
  -- as `CanRelay` and `CanDeliver` say (the bundle has not expired, at the source and the relay it
  -- is pending and admitted by the store, at the destination there is a place for a new
  -- acknowledgement, and the next peer is connected and its summary vector lacks what it is to be
  -- handed), neither the relay nor the destination has a bundle of b's id in store, and the
  -- acknowledgement's id is not b's and not in store at the source: the source hands b to its peer;
  -- the relay hands what arrives to its peer; the destination then has an acknowledgement of b in
  -- store and hands it to its peer; and when what arrives of it has been taken at the source, the
  -- source's store has no bundle of b's id.
  pub journey :
      (b : Bundle) (t : Times) (fresh : Uuid) (relay destination : Moment) (home : Moment)
      → (relay_peer destination_peer source_peer : PeerRecord)
      → (at_source at_relay at_destination back_at_source : State j.Text) → is_ack b.kind ≡ false
      → b.source.port < 2 ^ 16
      → b.destination.port < 2 ^ 16
      → CanRelay j t b relay_peer at_source
      → CanRelay j relay.times (sent f b) destination_peer at_relay
      → any (has_id b.id) (engine_holds j at_relay) ≡ false
      → CanDeliver j destination.times destination.fresh
          (sent f (sent f b))
          source_peer
          at_destination
      → any (has_id b.id) (engine_holds j at_destination) ≡ false
      → IsReliable back_at_source.bundle_manager.storage
      → relay.has_runtime ≡ true
      → destination.has_runtime ≡ true
      → home.has_runtime ≡ true
      → (back_at_source.node_id == b.source.id) ≡ true
      → any (has_id destination.fresh) (engine_holds j back_at_source) ≡ false
      → destination.fresh ≢ b.id
      → let b2 = sent f (sent f b) in
        let a =
          new_ack destination.times.acked destination.fresh
            (record b2 { shipment_status = delivered }) in
        let at_end = arrive j f codec destination b2 at_destination in
        Mem (b, address_of relay_peer) (route_bundle j t fresh b at_source).1.net.log
        × Mem
            (sent f b, address_of destination_peer)
            (arrive j f codec relay (sent f b) at_relay).net.log
        × (any (is_ack_for b.id) (engine_holds j at_end) ≡ true)
        × Mem (a, address_of source_peer) at_end.net.log
        × (any (has_id b.id) (engine_holds j (arrive j f codec home (sent f a) back_at_source))
            ≡ false)
  unfolding new_ack
  journey b t fresh relay destination home rp dp sp s0 s1 s2 s3 k ps pd c0 c1 new1 c2 new2 r3 q1 q2
        q3 at_home new3 other =
      let b1 = sent f b in
      let b2 = sent f b1 in
      let w1 = sent_lem b ps pd in
      let w2 = sent_lem b1 (rw w1.same_source ps) (rw w1.same_destination pd) in
      let same_id = w2.same_id ∙ w1.same_id in
      let same_source = w2.same_source ∙ w1.same_source in
      let same_destination = w2.same_destination ∙ w1.same_destination in
      let k1 : is_ack b1.kind ≡ false = ap is_ack w1.same_kind ∙ sent_kind-ack f b.kind ∙ k in
      let k2 : is_ack b2.kind ≡ false = ap is_ack w2.same_kind ∙ sent_kind-ack f b1.kind ∙ k1 in
      let a =
        new_ack destination.times.acked destination.fresh
          (record b2 { shipment_status = delivered }) in
      let w3 = sent_lem a (rw same_destination pd) (rw same_source ps) in
      let l = c0.lacks in
      let arrived =
        arrive-delivers j laws f codec destination b2 s2 c2.reliable (rw same_id new2) q2 sp k2
          c2 in
      (
        route_bundle-hands j laws t fresh b s0 c0.reliable l.before l.after rp l.vectors_before
            l.vectors_after l.vector k c0.unexpired c0.elsewhere c0.waits c0.admitted l.near
            l.answers l.place l.unknown,
        arrive-hands j laws f codec relay b1 s1 c1.reliable (rw w1.same_id new1) q1 dp k1 c1,
        subst (λ i. any (is_ack_for i) (engine_holds j (arrive j f codec destination b2 s2)) ≡ true)
            same_id arrived.0,
        arrived.1,
        arrive-settles j laws f codec home (sent f a) s3 r3 (rw w3.same_id new3) q3 b.id
            (w3.same_kind ∙ ap ack same_id) (λ e. other (sym w3.same_id ∙ e))
            (rw (w3.same_destination, same_source) at_home),
      )
