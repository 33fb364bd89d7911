-- ===== src/BundleManager/Stable.antt =====
-- What the methods of src/storage/storage.rs keep, those of src/routing/bundleManager.rs keep.
use rusty_bundle.Prelude.{List, [], ◌∷◌, Option, none, some, Bool-cases, inl, inr, any, is_some}
use rusty_bundle.Model.{
  Uuid, Bundle, BundleKind, data_msg, ack, request_sv, summary_vector, Clock, delivered,
}
use rusty_bundle.Disk.{Serde}
use rusty_bundle.Storage
use rusty_bundle.Storage.{Store, is_ack_for}
use rusty_bundle.Storage.Stable.{IsStable}
use rusty_bundle.BundleManager
use rusty_bundle.BundleManager.{
  BundleManager, upsert, settle, ack_known, incoming, delete_each, handle_incoming_ack,
  drop_expired_bundles,
}

module _ (j : Serde) (P : Store j.Text → Type 0) (stable : IsStable j P) where
  pub get_bundle-IsStable : (id : Uuid) (s : Store j.Text) → P s → P (Storage.get_bundle j id s).1
  unfolding Storage.get_bundle
  get_bundle-IsStable id s w = stable.refreshes s w

  pub get_all_bundles-IsStable : (s : Store j.Text) → P s → P (Storage.get_all_bundles j s).1
  unfolding Storage.get_all_bundles
  get_all_bundles-IsStable s w = stable.refreshes s w

  pub upsert-IsStable : (c : Clock) (b : Bundle) (s : Store j.Text) → P s → P (upsert j c b s).1
  unfolding upsert
  upsert-IsStable c b s w =
      let s1 = (Storage.get_bundle j b.id s).1 in
      let w1 = get_bundle-IsStable b.id s w in
      elim (Bool-cases (is_some (Storage.get_bundle j b.id s).0)) [
        | inl e ↦ rw e (stable.updates b s1 w1)
        | inr e ↦ rw e (stable.saves c b s1 w1)
      ]

  settle-IsStable :
      (found : Option Bundle) (d : Uuid) (s : Store j.Text) → P s → P (settle j found d s)
  unfolding settle
  settle-IsStable none d s w = w
  settle-IsStable (some x) d s w =
      stable.deletes d _ (stable.updates (record x { shipment_status = delivered }) s w)

  ack_known-IsStable : (d id : Uuid) (s : Store j.Text) → P s → P (ack_known j d id s).1
  unfolding ack_known
  ack_known-IsStable d id s w =
      let s1 = (Storage.get_all_bundles j s).1 in
      let w1 = get_all_bundles-IsStable s w in
      elim (Bool-cases (any (is_ack_for d) (Storage.get_all_bundles j s).0)) [
        | inl e ↦ rw e w1
        | inr e ↦ rw e (get_bundle-IsStable id s1 w1)
      ]

  incoming-IsStable :
      (k : BundleKind) (c : Clock) (a : Bundle) (s : Store j.Text) → P s → P (incoming j k c a s).1
  unfolding incoming
  incoming-IsStable (data_msg m) c a s w = w
  incoming-IsStable (request_sv f) c a s w = w
  incoming-IsStable (summary_vector ids) c a s w = w
  incoming-IsStable (ack d) c a s w =
      let (found, s1) = Storage.get_bundle j d s in
      let s2 = settle j found d s1 in
      let w2 = settle-IsStable found d s1 (get_bundle-IsStable d s w) in
      let s3 = (ack_known j d a.id s2).1 in
      let w3 = ack_known-IsStable d a.id s2 w2 in
      elim (Bool-cases (ack_known j d a.id s2).0) [
        | inl e ↦ rw e w3
        | inr e ↦ rw e (stable.saves c a s3 w3)
      ]

  delete_each-IsStable : (ids : List Uuid) (s : Store j.Text) → P s → P (delete_each j ids s)
  unfolding delete_each
  delete_each-IsStable [] s w = w
  delete_each-IsStable (id ∷ ids) s w =
      delete_each-IsStable ids (Storage.delete_bundle j id s).1 (stable.deletes id s w)

  pub handle_incoming_ack-IsStable :
      (c : Clock) (a : Bundle) (m : BundleManager j.Text)
      → P m.storage
      → P (handle_incoming_ack j c a m).1.storage
  unfolding handle_incoming_ack
  handle_incoming_ack-IsStable c a m w = incoming-IsStable a.kind c a m.storage w

  pub drop_expired_bundles-IsStable :
      (c : Clock) (m : BundleManager j.Text) → P m.storage → P (drop_expired_bundles j c m).storage
  unfolding drop_expired_bundles
  drop_expired_bundles-IsStable c m w =
      delete_each-IsStable _ (Storage.get_all_bundles j m.storage).1
        (get_all_bundles-IsStable m.storage w)

  pub upsert_bundle-IsStable :
      (c : Clock) (b : Bundle) (m : BundleManager j.Text)
      → P m.storage
      → P (BundleManager.upsert_bundle j c b m).1.storage
  unfolding BundleManager.upsert_bundle
  upsert_bundle-IsStable c b m w = upsert-IsStable c b m.storage w

  pub manager_save-IsStable :
      (c : Clock) (b : Bundle) (m : BundleManager j.Text)
      → P m.storage
      → P (BundleManager.save_bundle j c b m).1.storage
  unfolding BundleManager.save_bundle
  manager_save-IsStable c b m w = stable.saves c b m.storage w

  pub manager_delete-IsStable :
      (id : Uuid) (m : BundleManager j.Text)
      → P m.storage
      → P (BundleManager.delete_bundle j id m).1.storage
  unfolding BundleManager.delete_bundle
  manager_delete-IsStable id m w = stable.deletes id m.storage w

  pub has_bundle-IsStable :
      (id : Uuid) (m : BundleManager j.Text)
      → P m.storage
      → P (BundleManager.has_bundle j id m).1.storage
  unfolding BundleManager.has_bundle
  has_bundle-IsStable id m w = get_bundle-IsStable id m.storage w

  pub manager_get-IsStable :
      (id : Uuid) (m : BundleManager j.Text) → P m.storage → P (BundleManager.get j id m).1.storage
  unfolding BundleManager.get
  manager_get-IsStable id m w = get_bundle-IsStable id m.storage w

  pub get_bundles_from_node-IsStable :
      (m : BundleManager j.Text)
      → P m.storage
      → P (BundleManager.get_bundles_from_node j m).1.storage
  unfolding BundleManager.get_bundles_from_node
  get_bundles_from_node-IsStable m w = get_all_bundles-IsStable m.storage w
