-- ===== src/Engine/Branches.antt =====
-- What the branches of `route_bundle` (src/routing/engine.rs) do to the store and the network.
use rusty_bundle.Prelude.{
  ℕ, List, Bool, Bool-cases, true, false, ◌||◌, ◌≡◌, refl, ◌∙◌, ap, inl, inr, any, ◌==◌,
}
use rusty_bundle.Model.{Uuid, Bundle, ack, expired, Clock, is_ack, is_expired}
use rusty_bundle.Disk.{Serde, SerdeLaws}
use rusty_bundle.Storage.{has_id, is_ack_for}
use rusty_bundle.Storage.Contents.{without, delete}
use rusty_bundle.Storage.Access.{held, IsReliable}
use rusty_bundle.Storage.Refinement.{delete_bundle-Refines}
use rusty_bundle.BundleManager
use rusty_bundle.BundleManager.{incoming}
use rusty_bundle.BundleManager.Refinement.{incoming-Refines}
use rusty_bundle.BundleManager.Contents as Lists
use rusty_bundle.Engine.{State, Times, with_id}
use rusty_bundle.Engine.Route.{route_ack, route_data, route_bundle}
use rusty_bundle.Engine.Recipients.{connected-reachable}

-- The contents of the engine's file.
abbrev pub engine_holds : (j : Serde) → State j.Text → List Bundle
engine_holds j st = held j st.bundle_manager.storage

-- Whether an acknowledgement of `d`, or a bundle with the id of `b`, is in `l` beside `d`.
abbrev pub is_known : Uuid → Bundle → List Bundle → Bool
is_known d b l = let rest = without d l in any (is_ack_for d) rest || any (has_id b.id) rest

accept_known :
    (c : Clock) (capacity : ℕ) (d : Uuid) (b : Bundle) (l : List Bundle)
    → is_known d b l ≡ true
    → Lists.accept_ack c capacity d b l ≡ (false, without d l)
unfolding Lists.accept_ack
accept_known c capacity d b l h = rw h refl

module _ (j : Serde) (laws : SerdeLaws j) (t : Times) (fresh : Uuid) (b : Bundle)
    (st : State j.Text) (r : IsReliable st.bundle_manager.storage) where
  -- With no failure of the file system: if a data bundle has expired when it is routed, it is
  -- returned as expired and deleted from the store, the rest of the store stays, and the network is
  -- not used.
  pub route_expired :
      is_ack b.kind ≡ false
      → is_expired t.tested b ≡ true
      → let (b', st') = route_bundle j t fresh b st in
        (b' ≡ record b { shipment_status = expired })
        × (engine_holds j st' ≡ without b.id (engine_holds j st))
        × (st'.net ≡ st.net)
  unfolding route_bundle route_data BundleManager.delete_bundle delete
  route_expired k e =
      rw (k, e)
        (refl, (delete_bundle-Refines j laws st.bundle_manager.storage r b.id).state.on_disk, refl)

  -- With no failure of the file system: if an acknowledgement of the data bundle d is routed while
  -- another one of d, or a bundle of its own id, is in store beside d, nothing is sent.
  pub route_known_ack :
      (d : Uuid)
      → b.kind ≡ ack d
      → is_known d b (engine_holds j st) ≡ true
      → (route_bundle j t fresh b st).1.net.log ≡ st.net.log
  unfolding route_bundle route_ack BundleManager.handle_incoming_ack
  route_known_ack d k known =
      let s = st.bundle_manager.storage in
      let ids = with_id st.peers b.destination.id in
      let l = (connected-reachable ids st).1 in
      let refused : (incoming j b.kind t.stored b s).0 ≡ false =
        ap (λ i. (incoming j i t.stored b s).0) k
        ∙ ((incoming-Refines j laws t.stored b d s r).result
            ∙ ap (λ (x : Bool × List Bundle). x.0)
                (accept_known t.stored s.capacity d b (held j s) known)) in
      rw (ap is_ack k) (elim (Bool-cases (st.node_id == b.destination.id)) [
        | inl x ↦ rw x l
        | inr x ↦ rw (x, refused) l
      ])
