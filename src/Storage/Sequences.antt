-- ===== src/Storage/Sequences.antt =====
-- Sequences of calls of the storage layer (src/storage/storage.rs) with no failure of the file
-- system, against the same calls on lists.
use rusty_bundle.Prelude.{ℕ, List, [], ◌∷◌, ◌≡◌, refl, ap, ◌∙◌}
use rusty_bundle.Model.{Bundle, Clock}
use rusty_bundle.Disk.{Serde, SerdeLaws}
use rusty_bundle.Storage.{Store}
use rusty_bundle.Storage.Contents.{live, save, delete, update}
use rusty_bundle.Storage.Access.{Holds, held, IsReliable, cleanup-Holds}
use rusty_bundle.Storage.Refinement.{
  save_bundle-Refines, delete_bundle-Refines, update_bundle-Refines, get_bundle-Holds,
  get_all_bundles-Holds,
}
use rusty_bundle.Storage.Calls.{Call, saves, updates, deletes, gets, gets_all, cleans, step, run}

-- The contents of the file after a call.
unfoldable pub step_list : ℕ → List Bundle → Clock × Call → List Bundle
step_list capacity l (c, saves b) = (save c capacity b l).1
step_list capacity l (c, updates b) = (update b l).1
step_list capacity l (c, deletes id) = (delete id l).1
step_list capacity l (c, gets id) = l
step_list capacity l (c, gets_all) = l
step_list capacity l (c, cleans) = live c l

unfoldable pub run_list : ℕ → List Bundle → List (Clock × Call) → List Bundle
run_list capacity l [] = l
run_list capacity l (call ∷ calls) = run_list capacity (step_list capacity l call) calls

module _ (j : Serde) (laws : SerdeLaws j) where
  step-Holds :
      (s : Store j.Text) (call : Clock × Call)
      → IsReliable s
      → Holds j (step_list s.capacity (held j s) call) s.capacity (step j s call)
  unfolding step step_list
  step-Holds s (c, saves b) r = (save_bundle-Refines j laws s r c b).state
  step-Holds s (c, updates b) r = (update_bundle-Refines j laws s r b).state
  step-Holds s (c, deletes id) r = (delete_bundle-Refines j laws s r id).state
  step-Holds s (c, gets id) r = (get_bundle-Holds j laws s r id).1
  step-Holds s (c, gets_all) r = (get_all_bundles-Holds j laws s r).1
  step-Holds s (c, cleans) r = (cleanup-Holds j laws c s r).1

  -- With no failure of the file system, any sequence of calls leaves in the file what the same
  -- calls on lists make of its contents, and the capacity as it was.
  pub held-run :
      (s : Store j.Text) (calls : List (Clock × Call))
      → IsReliable s
      → (held j (run j s calls) ≡ run_list s.capacity (held j s) calls)
        × ((run j s calls).capacity ≡ s.capacity)
  unfolding run run_list
  held-run s [] r = (refl, refl)
  held-run s (call ∷ calls) r =
      let h = step-Holds s call r in
      let s1 = step j s call in
      let (e, k) = held-run s1 calls h.reliable in
      (
        e
            ∙ ap (λ n. run_list n (held j s1) calls) h.limit
            ∙ ap (λ l. run_list s.capacity l calls) h.on_disk,
        k ∙ h.limit,
      )
