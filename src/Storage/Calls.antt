-- ===== src/Storage/Calls.antt =====
-- Sequences of calls of the storage layer (src/storage/storage.rs), each at its own instant and
-- with accesses of the file system that may fail.
use rusty_bundle.Prelude.{List, [], ◌∷◌}
use rusty_bundle.Model.{Uuid, Bundle, Clock}
use rusty_bundle.Disk.{Serde, SerdeLaws}
use rusty_bundle.Storage.{
  Store, cleanup_expired_bundles, save_bundle, get_bundle, get_all_bundles, delete_bundle,
  update_bundle,
}
use rusty_bundle.Storage.Invariant.{
  IsKept, save_bundle-IsKept, delete_bundle-IsKept, update_bundle-IsKept, cleanup-IsKept,
  refresh-IsKept,
}

pub data Call : Type 0 where
  saves updates : Bundle → Call
  deletes gets : Uuid → Call
  gets_all cleans : Call

module _ (j : Serde) where
  -- The state after a call.
  unfoldable pub step : Store j.Text → Clock × Call → Store j.Text
  step s (c, saves b) = (save_bundle j c b s).1
  step s (c, updates b) = (update_bundle j b s).1
  step s (c, deletes id) = (delete_bundle j id s).1
  step s (c, gets id) = (get_bundle j id s).1
  step s (c, gets_all) = (get_all_bundles j s).1
  step s (c, cleans) = (cleanup_expired_bundles j c s).1

  unfoldable pub run : Store j.Text → List (Clock × Call) → Store j.Text
  run s [] = s
  run s (call ∷ calls) = run (step s call) calls

module _ (j : Serde) (laws : SerdeLaws j) where
  step-IsKept : (s : Store j.Text) (call : Clock × Call) → IsKept j s → IsKept j (step j s call)
  unfolding step get_bundle get_all_bundles
  step-IsKept s (c, saves b) w = save_bundle-IsKept j laws c b s w
  step-IsKept s (c, updates b) w = update_bundle-IsKept j laws b s w
  step-IsKept s (c, deletes id) w = delete_bundle-IsKept j laws id s w
  step-IsKept s (c, gets id) w = refresh-IsKept j laws s w
  step-IsKept s (c, gets_all) w = refresh-IsKept j laws s w
  step-IsKept s (c, cleans) w = cleanup-IsKept j laws c s w

  -- Whatever calls are made, and whichever accesses of the file system fail: a file with no id
  -- twice and no more bundles than the capacity stays so.
  pub run-IsKept :
      (s : Store j.Text) (calls : List (Clock × Call)) → IsKept j s → IsKept j (run j s calls)
  unfolding run
  run-IsKept s [] w = w
  run-IsKept s (call ∷ calls) w = run-IsKept (step j s call) calls (step-IsKept s call w)
