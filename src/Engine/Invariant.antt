-- ===== src/Engine/Invariant.antt =====
-- Routing (src/routing/engine.rs) keeps the file of the node well formed, whatever the network
-- answers and whichever accesses of the file system fail.
use rusty_bundle.Model.{Uuid, Bundle, Clock}
use rusty_bundle.Disk.{Serde, SerdeLaws}
use rusty_bundle.Storage.Invariant.{IsKept}
use rusty_bundle.Storage.Stable.{IsKept-IsStable}
use rusty_bundle.BundleManager.Invariant.{ManagerIsKept}
use rusty_bundle.Engine.{State, Times}
use rusty_bundle.Engine.Route.{route_bundle, retry_unsynced_bundles}
use rusty_bundle.Engine.Stable.{route_bundle-IsStable, retry_unsynced_bundles-IsStable}

-- The file of the engine's store is well formed.
abbrev pub StateIsKept : (j : Serde) → State j.Text → Type 0
StateIsKept j st = ManagerIsKept j st.bundle_manager

module _ (j : Serde) (laws : SerdeLaws j) where
  -- Routing any bundle keeps the node's file well formed, with no id twice and no more bundles than
  -- the capacity, whatever the network answers and
  -- whichever accesses of the file system fail.
  pub route_bundle-IsKept :
      (t : Times) (fresh : Uuid) (b : Bundle) (st : State j.Text)
      → StateIsKept j st
      → StateIsKept j (route_bundle j t fresh b st).1
  route_bundle-IsKept = route_bundle-IsStable j (IsKept j) (IsKept-IsStable j laws)

  -- `retry_unsynced_bundles` keeps the node's file well formed: no id twice and no more bundles than
  -- the capacity, whatever the network answers and whichever accesses of the file system fail.
  pub retry_unsynced_bundles-IsKept :
      (c : Clock) (st : State j.Text)
      → StateIsKept j st
      → StateIsKept j (retry_unsynced_bundles j c st)
  retry_unsynced_bundles-IsKept =
      retry_unsynced_bundles-IsStable j (IsKept j) (IsKept-IsStable j laws)
