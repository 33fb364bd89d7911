-- ===== src/Storage/Sections.antt =====
-- The calls of src/storage/storage.rs as the sections that each makes under `STORAGE_IO_LOCK`: a
-- read of the file in `load_bundles_from_file`, and a write of it in `save_to_file`. The cache
-- between two sections is the thread's own.
use rusty_bundle.Prelude.{
  ℕ, ◌-◌, List, [], ◌∷◌, ◌++◌, Bool, true, false, ◌&&◌, ◌≡◌, refl, arith, ltb, leb, if◌then◌else◌,
  any, modify_first, length,
}
use rusty_bundle.Model.{Uuid, Bundle, Clock, is_data}
use rusty_bundle.Disk.{Serde, Disk, is_ok, load_bundles_from_file, write_bundles}
use rusty_bundle.Storage.{
  Store, has_id, is_ack_for, refresh_from_disk, save_to_file, cleanup_expired_bundles,
  has_ack_for_data_id, save_bundle, get_bundle, get_all_bundles, delete_bundle, update_bundle,
}
use rusty_bundle.Storage.Contents.{live, without}
use rusty_bundle.Storage.Calls.{Call, saves, updates, deletes, gets, gets_all, cleans}

-- What is left of a call: its result, or the next section and what follows it.
pub data Code : Type 0 where
  returned : Bool → Code
  reads : (List Bundle → Code) → Code
  writes : List Bundle → (Bool → Code) → Code

-- `save_bundle` after `cleanup_expired_bundles`, with `l` in the cache.
unfoldable pub admit_code : ℕ → Bundle → List Bundle → Code
admit_code capacity bundle l =
    if is_data bundle.kind && any (is_ack_for bundle.id) l
    then returned false
    else if leb capacity (length l)
    then returned false
    else if any (has_id bundle.id) l
    then returned false
    else writes (l ++ bundle ∷ []) returned

-- `cleanup_expired_bundles` with `l` in the cache, and what follows it.
unfoldable pub cleanup_code : Clock → List Bundle → (List Bundle → Code) → Code
cleanup_code c l next =
    let kept = live c l in
    if ltb 0 (length l - length kept) then writes kept (λ written. next kept) else next kept

unfoldable pub delete_code : Uuid → List Bundle → Code
delete_code id l =
    if ltb (length (without id l)) (length l)
    then writes (without id l) returned
    else returned false

unfoldable pub update_code : Bundle → List Bundle → Code
update_code bundle l =
    if is_data bundle.kind && any (is_ack_for bundle.id) l
    then returned false
    else if any (has_id bundle.id) l
    then writes (modify_first (has_id bundle.id) (λ _. bundle) l) returned
    else returned false

-- The sections of a call. A call that returns no Boolean returns true here.
unfoldable pub code_of : ℕ → Clock → Call → Code
code_of capacity c (saves b) = reads (λ _. reads (λ l. cleanup_code c l (admit_code capacity b)))
code_of capacity c (updates b) = reads (update_code b)
code_of capacity c (deletes id) = reads (delete_code id)
code_of capacity c (gets id) = reads (λ l. returned true)
code_of capacity c gets_all = reads (λ l. returned true)
code_of capacity c cleans = reads (λ l. cleanup_code c l (λ _. returned true))

module _ (j : Serde) where
  open j use {Text}

  -- One section, under the lock.
  unfoldable pub section : Code → Disk Text → Code × Disk Text
  section (returned r) d = (returned r, d)
  section (reads next) d = let (l, d1) = load_bundles_from_file j d in (next l, d1)
  section (writes l next) d = let (r, d1) = write_bundles j l d in (next (is_ok r), d1)

  -- All sections of a call, with no other thread in between.
  unfoldable pub complete : Code → Disk Text → Bool × Disk Text
  complete (returned r) d = (r, d)
  complete (reads next) d = let (l, d1) = load_bundles_from_file j d in complete (next l) d1
  complete (writes l next) d = let (r, d1) = write_bundles j l d in complete (next (is_ok r)) d1

  -- The result of a call, where it is a Boolean, and the disk that it leaves.
  unfoldable pub outcome : Clock → Call → Store Text → Bool × Disk Text
  outcome c (saves b) s = let (r, s') = save_bundle j c b s in (r, s'.disk)
  outcome c (updates b) s = let (r, s') = update_bundle j b s in (r, s'.disk)
  outcome c (deletes id) s = let (r, s') = delete_bundle j id s in (r, s'.disk)
  outcome c (gets id) s = (true, (get_bundle j id s).1.disk)
  outcome c gets_all s = (true, (get_all_bundles j s).1.disk)
  outcome c cleans s = (true, (cleanup_expired_bundles j c s).1.disk)

  -- Run to its end with no other thread in between, and whichever accesses of the file system
  -- fail, the sections of a call give the result of the call, where that is a Boolean, and leave the
  -- disk that the call leaves.
  pub complete-code_of :
      (c : Clock) (call : Call) (s : Store Text)
      → complete (code_of s.capacity c call) s.disk ≡ outcome c call s
  unfolding complete code_of admit_code cleanup_code delete_code update_code outcome save_bundle
      update_bundle delete_bundle get_bundle get_all_bundles cleanup_expired_bundles
      refresh_from_disk save_to_file has_ack_for_data_id
  complete-code_of c (saves b) s = ground arith
  complete-code_of c (updates b) s = ground arith
  complete-code_of c (deletes id) s = ground arith
  complete-code_of c (gets id) s = refl
  complete-code_of c gets_all s = refl
  complete-code_of c cleans s = ground arith
