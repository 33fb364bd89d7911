-- ===== src/BundleManager.antt =====
-- src/routing/bundleManager.rs: the lifecycle of bundles over the storage layer, and
-- `drop_expired_bundles` of src/routing/scf.rs. Each method returns its result and the new state.
pub mod Contents
pub mod Refinement
pub mod Expired
pub mod Invariant
pub mod Stable
use Prim.Native.String.{◌++◌ as append}
use rusty_bundle.Prelude.{
  String, List, [], ◌∷◌, map, Option, none, some, Bool, true, false, ◌||◌, ◌==◌, if◌then◌else◌, any,
  retain, is_some,
}
use rusty_bundle.Model.{
  Uuid, Bundle, BundleKind, data_msg, ack, request_sv, summary_vector, delivered, Clock, is_expired,
}
use rusty_bundle.Disk.{Serde, Disk}
use rusty_bundle.Storage
use rusty_bundle.Storage.{Store, is_ack_for}

pub record BundleManager (Text : Type 0) : Type 0 where
  pub node_id : Uuid
  pub storage : Store Text

module _ (j : Serde) where
  open j use {Text}

  -- The disk is that of the directory `./bundles/{name}`.
  unfoldable pub new_manager : Uuid → String → Disk Text → BundleManager Text
  new_manager node_id name d = record {
    node_id = node_id;
    storage = Storage.new_storage j (append "./bundles/" name) 100 d;
  }

  -- `get_bundles_from_node` and `all` have the same body.
  unfoldable pub get_bundles_from_node : BundleManager Text → List Bundle × BundleManager Text
  get_bundles_from_node m =
      let (bundles, s) = Storage.get_all_bundles j m.storage in (bundles, record m { storage = s })

  unfoldable pub all : BundleManager Text → List Bundle × BundleManager Text
  all m =
      let (bundles, s) = Storage.get_all_bundles j m.storage in (bundles, record m { storage = s })

  unfoldable pub get : Uuid → BundleManager Text → Option Bundle × BundleManager Text
  get bundle_id m =
      let (found, s) = Storage.get_bundle j bundle_id m.storage in (found, record m { storage = s })

  unfoldable pub delete_bundle : Uuid → BundleManager Text → Bool × BundleManager Text
  delete_bundle bundle_id m =
      let (r, s) = Storage.delete_bundle j bundle_id m.storage in (r, record m { storage = s })

  unfoldable pub save_bundle : Clock → Bundle → BundleManager Text → Bool × BundleManager Text
  save_bundle c b m =
      let (r, s) = Storage.save_bundle j c b m.storage in (r, record m { storage = s })

  unfoldable pub upsert : Clock → Bundle → Store Text → Bool × Store Text
  upsert c b s =
      let (found, s1) = Storage.get_bundle j b.id s in
      if is_some found then Storage.update_bundle j b s1 else Storage.save_bundle j c b s1

  unfoldable pub upsert_bundle : Clock → Bundle → BundleManager Text → Bool × BundleManager Text
  upsert_bundle c b m = let (r, s) = upsert c b m.storage in (r, record m { storage = s })

  unfoldable pub has_ack_for_data_bundle : Uuid → BundleManager Text → Bool × BundleManager Text
  has_ack_for_data_bundle data_bundle_id m =
      let (bundles, s) = Storage.get_all_bundles j m.storage in
      (any (is_ack_for data_bundle_id) bundles, record m { storage = s })

  unfoldable pub has_bundle : Uuid → BundleManager Text → Bool × BundleManager Text
  has_bundle bundle_id m =
      let (found, s) = Storage.get_bundle j bundle_id m.storage in
      (is_some found, record m { storage = s })

  -- The data bundle that `get_bundle` found is marked delivered, updated and deleted.
  unfoldable pub settle : Option Bundle → Uuid → Store Text → Store Text
  settle none ack_bundle_id s = s
  settle (some data_bundle) ack_bundle_id s =
      let s1 = (Storage.update_bundle j (record data_bundle { shipment_status = delivered }) s).1 in
      (Storage.delete_bundle j ack_bundle_id s1).1

  -- The second operand of the `||` is read only if the first is false.
  unfoldable pub ack_known : Uuid → Uuid → Store Text → Bool × Store Text
  ack_known ack_bundle_id ack_id s =
      let (bundles, s1) = Storage.get_all_bundles j s in
      if any (is_ack_for ack_bundle_id) bundles
      then (true, s1)
      else (let (found, s2) = Storage.get_bundle j ack_id s1 in (is_some found, s2))

  unfoldable pub incoming : BundleKind → Clock → Bundle → Store Text → Bool × Store Text
  incoming (ack ack_bundle_id) c a s =
      let (found, s1) = Storage.get_bundle j ack_bundle_id s in
      let (known, s2) = ack_known ack_bundle_id a.id (settle found ack_bundle_id s1) in
      if known then (false, s2) else Storage.save_bundle j c a s2
  incoming (data_msg m) c a s = (false, s)
  incoming (request_sv f) c a s = (false, s)
  incoming (summary_vector ids) c a s = (false, s)

  unfoldable pub handle_incoming_ack :
      Clock → Bundle → BundleManager Text → Bool × BundleManager Text
  handle_incoming_ack c a m =
      let (r, s) = incoming a.kind c a m.storage in (r, record m { storage = s })

  -- `for id in expired { bundle_manager.delete_bundle(id); }`
  unfoldable pub delete_each : List Uuid → Store Text → Store Text
  delete_each [] s = s
  delete_each (id ∷ ids) s = delete_each ids (Storage.delete_bundle j id s).1

  -- src/routing/scf.rs
  unfoldable pub drop_expired_bundles : Clock → BundleManager Text → BundleManager Text
  drop_expired_bundles c m =
      let (bundles, s) = Storage.get_all_bundles j m.storage in
      let expired = map (λ b. b.id) (retain (is_expired c) bundles) in
      record m { storage = delete_each expired s }
