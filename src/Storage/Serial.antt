-- ===== src/Storage/Serial.antt =====
-- Threads that share one file (src/storage/storage.rs) when no two calls overlap: the sections of
-- each call run with no section of another thread in between.
use rusty_bundle.Prelude.{ℕ, List, [], ◌∷◌, Bool, true, ◌≡◌, refl}
use rusty_bundle.Model.{Bundle, Clock}
use rusty_bundle.Disk.{Serde, SerdeLaws, Disk, stored}
use rusty_bundle.Storage.{Store}
use rusty_bundle.Storage.Contents.{live, save, delete, update}
use rusty_bundle.Storage.Access.{held, IsReliable, cleanup-Holds}
use rusty_bundle.Storage.Refinement.{
  save_bundle-Refines, delete_bundle-Refines, update_bundle-Refines, get_bundle-Holds,
  get_all_bundles-Holds,
}
use rusty_bundle.Storage.Calls.{Call, saves, updates, deletes, gets, gets_all, cleans}
use rusty_bundle.Storage.Sections.{code_of, complete, outcome, complete-code_of}

-- The result of a call on the file's contents, true where it is no Boolean, and the contents after.
abbrev pub on_list : ℕ → Clock → Call → List Bundle → Bool × List Bundle
on_list capacity c (saves b) l = save c capacity b l
on_list capacity c (updates b) l = update b l
on_list capacity c (deletes id) l = delete id l
on_list capacity c (gets id) l = (true, l)
on_list capacity c gets_all l = (true, l)
on_list capacity c cleans l = (true, live c l)

unfoldable pub serial_on_list : ℕ → List (Clock × Call) → List Bundle → List Bool × List Bundle
serial_on_list capacity [] l = ([], l)
serial_on_list capacity ((c, call) ∷ calls) l =
    let (r, l1) = on_list capacity c call l in
    let (rs, l2) = serial_on_list capacity calls l1 in (r ∷ rs, l2)

module _ (j : Serde) where
  -- One call after the other, by whichever threads.
  unfoldable pub serial : ℕ → List (Clock × Call) → Disk j.Text → List Bool × Disk j.Text
  serial capacity [] d = ([], d)
  serial capacity ((c, call) ∷ calls) d =
      let (r, d1) = complete j (code_of capacity c call) d in
      let (rs, d2) = serial capacity calls d1 in (r ∷ rs, d2)

  -- A store on the file.
  abbrev store_on : ℕ → Disk j.Text → Store j.Text
  store_on capacity d = record {
    layer = record { storage_dir = ""; bundles = []; capacity = capacity };
    disk = d;
  }

  module _ (laws : SerdeLaws j) where
    outcome-on_list :
        (c : Clock) (call : Call) (s : Store j.Text)
        → IsReliable s
        → let (r, d) = outcome j c call s in
          (r ≡ (on_list s.capacity c call (held j s)).0)
          × (stored j d ≡ (on_list s.capacity c call (held j s)).1)
          × (d.outcomes ≡ [])
    unfolding outcome
    outcome-on_list c (saves b) s r =
        let h = save_bundle-Refines j laws s r c b in (h.result, h.state.on_disk, h.state.reliable)
    outcome-on_list c (updates b) s r =
        let h = update_bundle-Refines j laws s r b in (h.result, h.state.on_disk, h.state.reliable)
    outcome-on_list c (deletes id) s r =
        let h = delete_bundle-Refines j laws s r id in (h.result, h.state.on_disk, h.state.reliable)
    outcome-on_list c (gets id) s r =
        let h = (get_bundle-Holds j laws s r id).1 in (refl, h.on_disk, h.reliable)
    outcome-on_list c gets_all s r =
        let h = (get_all_bundles-Holds j laws s r).1 in (refl, h.on_disk, h.reliable)
    outcome-on_list c cleans s r =
        let h = (cleanup-Holds j laws c s r).1 in (refl, h.on_disk, h.reliable)

    -- With no failure of the file system, and where no section of one call stands between two of
    -- another: calls of any threads on one file return, where they return a Boolean, what the same
    -- calls on lists return, and leave in the file what those make of its contents.
    pub serial-Refines :
        (capacity : ℕ) (calls : List (Clock × Call)) (d : Disk j.Text)
        → d.outcomes ≡ []
        → let (rs, d') = serial capacity calls d in
          (rs ≡ (serial_on_list capacity calls (stored j d)).0)
          × (stored j d' ≡ (serial_on_list capacity calls (stored j d)).1)
    unfolding serial serial_on_list
    serial-Refines capacity [] d e = (refl, refl)
    serial-Refines capacity ((c, call) ∷ calls) d e =
        let s = store_on capacity d in
        let one = complete-code_of j c call s in
        let (result, contents, reliable) = outcome-on_list c call s e in
        let d1 = (outcome j c call s).1 in
        let (more, left) = serial-Refines capacity calls d1 reliable in
        rw (one, result) (rw (more, left, contents) (refl, refl))
