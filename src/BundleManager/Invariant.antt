-- ===== src/BundleManager/Invariant.antt =====
-- However the accesses of the file system end, the methods of src/routing/bundleManager.rs keep the
-- file well formed.
use rusty_bundle.Model.{Uuid, Clock}
use rusty_bundle.Disk.{Serde, SerdeLaws}
use rusty_bundle.Storage.Invariant.{IsKept}
use rusty_bundle.Storage.Stable.{IsKept-IsStable}
use rusty_bundle.BundleManager
use rusty_bundle.BundleManager.{BundleManager, drop_expired_bundles}
use rusty_bundle.BundleManager.Stable.{
  has_bundle-IsStable, get_bundles_from_node-IsStable, drop_expired_bundles-IsStable,
}

-- The file of a manager's store is well formed.
abbrev pub ManagerIsKept : (j : Serde) → BundleManager j.Text → Type 0
ManagerIsKept j m = IsKept j m.storage

module _ (j : Serde) (laws : SerdeLaws j) where
  pub drop_expired_bundles-IsKept :
      (c : Clock) (m : BundleManager j.Text)
      → ManagerIsKept j m
      → ManagerIsKept j (drop_expired_bundles j c m)
  drop_expired_bundles-IsKept = drop_expired_bundles-IsStable j (IsKept j) (IsKept-IsStable j laws)

  pub has_bundle-IsKept :
      (id : Uuid) (m : BundleManager j.Text)
      → ManagerIsKept j m
      → ManagerIsKept j (BundleManager.has_bundle j id m).1
  has_bundle-IsKept = has_bundle-IsStable j (IsKept j) (IsKept-IsStable j laws)

  pub get_bundles_from_node-IsKept :
      (m : BundleManager j.Text)
      → ManagerIsKept j m
      → ManagerIsKept j (BundleManager.get_bundles_from_node j m).1
  get_bundles_from_node-IsKept =
      get_bundles_from_node-IsStable j (IsKept j) (IsKept-IsStable j laws)
