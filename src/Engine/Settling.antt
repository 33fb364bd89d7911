-- ===== src/Engine/Settling.antt =====
-- An acknowledgement at its destination, `route_bundle` of src/routing/engine.rs: the bundle that it
-- answers leaves the store.
use mathlib.Core.Path.{subst}
use rusty_bundle.Prelude.{
  ℕ, List, [], ◌∷◌, Bool, true, false, not, ◌≡◌, ◌≢◌, refl, sym, ap, ◌∙◌, arith, ◌==◌, any,
  any-append, any-retain-false, modify_first,
}
use rusty_bundle.Model.{Uuid, Bundle, ack, delivered, Clock, is_ack, is_expired}
use rusty_bundle.Disk.{Serde, SerdeLaws}
use rusty_bundle.Storage.{has_id}
use rusty_bundle.Storage.Contents.{live, without, add, save, update}
use rusty_bundle.Storage.Access.{held, IsReliable}
use rusty_bundle.Storage.Refinement.{Refines}
use rusty_bundle.BundleManager
use rusty_bundle.BundleManager.{incoming, upsert}
use rusty_bundle.BundleManager.Refinement.{incoming-Refines, upsert-Refines}
use rusty_bundle.BundleManager.Contents as Lists
use rusty_bundle.Engine.{State, Times}
use rusty_bundle.Engine.Route.{route_ack, route_bundle}
use rusty_bundle.Engine.Branches.{engine_holds}

any-modify_first :
    (id : Uuid) (b : Bundle) (p : Bundle → Bool) (l : List Bundle)
    → has_id id b ≡ false
    → any (has_id id) l ≡ false
    → any (has_id id) (modify_first p (λ _. b) l) ≡ false
any-modify_first id b p [] h g = g
any-modify_first id b p (x ∷ xs) h g = ground (arith, any-modify_first id b p xs h)

any-save :
    (c : Clock) (capacity : ℕ) (id : Uuid) (b : Bundle) (l : List Bundle)
    → has_id id b ≡ false
    → any (has_id id) l ≡ false
    → any (has_id id) (save c capacity b l).1 ≡ false
unfolding save add
any-save c capacity id b l h g = ground (
  arith,
  any-retain-false (has_id id) (λ x. not (is_expired c x)) l g,
  any-append (has_id id) (live c l) (b ∷ []),
)

any-upsert :
    (c : Clock) (capacity : ℕ) (id : Uuid) (b : Bundle) (l : List Bundle)
    → has_id id b ≡ false
    → any (has_id id) l ≡ false
    → any (has_id id) (Lists.upsert c capacity b l).1 ≡ false
unfolding Lists.upsert update
any-upsert c capacity id b l h g =
    ground (arith, any-save c capacity id b l h g, any-modify_first id b (has_id b.id) l h g)

any-without : (id : Uuid) (l : List Bundle) → any (has_id id) (without id l) ≡ false
any-without id [] = refl
any-without id (b ∷ bs) = ground (arith, any-without id bs)

any-accept_ack :
    (c : Clock) (capacity : ℕ) (d : Uuid) (a : Bundle) (l : List Bundle)
    → has_id d a ≡ false
    → any (has_id d) (Lists.accept_ack c capacity d a l).1 ≡ false
unfolding Lists.accept_ack
any-accept_ack c capacity d a l h =
    ground (arith, any-without d l, any-save c capacity d a (without d l) h (any-without d l))

module _ (j : Serde) (laws : SerdeLaws j) (t : Times) (fresh : Uuid) (a : Bundle)
    (st : State j.Text) (r : IsReliable st.bundle_manager.storage) where
  -- With no failure of the file system: when an acknowledgement of d, whose own id is not d, is
  -- routed at its destination, the node's store has no bundle of id d any more.
  pub route_bundle-settles :
      (d : Uuid)
      → a.kind ≡ ack d
      → a.id ≢ d
      → (st.node_id == a.destination.id) ≡ true
      → any (has_id d) (engine_holds j (route_bundle j t fresh a st).1) ≡ false
  unfolding route_bundle route_ack BundleManager.handle_incoming_ack BundleManager.upsert_bundle
  route_bundle-settles d k other home =
      let s = st.bundle_manager.storage in
      let a' = record a { shipment_status = delivered } in
      let not_d : has_id d a ≡ false = ground arith in
      let h : Refines j (Lists.accept_ack t.stored s.capacity d a (held j s)) s.capacity
          (incoming j a.kind t.stored a s) =
        subst
          (λ i.
            Refines j (Lists.accept_ack t.stored s.capacity d a (held j s)) s.capacity
              (incoming j i t.stored a s))
          (sym k) (incoming-Refines j laws t.stored a d s r) in
      let s1 = (incoming j a.kind t.stored a s).1 in
      let gone : any (has_id d) (held j s1) ≡ false =
        ap (any (has_id d)) h.state.on_disk
        ∙ any-accept_ack t.stored s.capacity d a (held j s) not_d in
      let u = upsert-Refines j laws t.acked a' s1 h.state.reliable in
      let done : any (has_id d) (held j (upsert j t.acked a' s1).1) ≡ false =
        ap (any (has_id d)) u.state.on_disk
        ∙ any-upsert t.acked s1.capacity d a' (held j s1) not_d gone in
      rw (ap is_ack k, home) done
