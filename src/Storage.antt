-- ===== src/Storage.antt =====
-- src/storage/storage.rs: the storage layer of a node, a cache of bundles over bundles.json.
-- `Store` is a `StorageLayer` with the disk that its directory names. Each method returns its
-- result and the new state.
pub mod Contents
pub mod Access
pub mod Refinement
pub mod Invariant
pub mod Stable
pub mod Calls
pub mod Faults
pub mod Sequences
pub mod Settled
pub mod Sections
pub mod Threads
pub mod Race
pub mod Serial
use rusty_bundle.Prelude.{
  ℕ, ◌-◌, String, List, [], ◌∷◌, ◌++◌, map, Option, Bool, false, not, ◌&&◌, ltb, leb, ◌==◌,
  if◌then◌else◌, any, retain, find, modify_first, length,
}
use rusty_bundle.Model.{Uuid, Bundle, BundleKind, ack, Clock, is_data, is_expired, acknowledges}
use rusty_bundle.Disk.{Serde, Disk, IoResult, is_ok, load_bundles_from_file, write_bundles}

pub record StorageLayer : Type 0 where
  pub storage_dir : String
  pub bundles : List Bundle
  pub capacity : ℕ

pub record Store (Text : Type 0) : Type 0 where
  pub layer : StorageLayer
  pub open layer use *
  pub disk : Disk Text

-- `|b| b.id == id`
abbrev pub has_id : Uuid → Bundle → Bool
has_id id b = b.id == id

-- The closure of `has_ack_for_data_id`.
abbrev pub is_ack_for : Uuid → Bundle → Bool
is_ack_for data_id b = acknowledges data_id b.kind

module _ {Text : Type 0} where
  unfoldable pub has_ack_for_data_id : Uuid → Store Text → Bool
  has_ack_for_data_id data_id s = any (is_ack_for data_id) s.bundles

  abbrev pub with_bundles : Store Text → List Bundle → Store Text
  with_bundles s bundles = record s { layer = record s.layer { bundles = bundles } }

  unfoldable pub get_bundles_by_node : Uuid → Store Text → List Uuid
  get_bundles_by_node node_id s = map (λ b. b.id) (retain (λ b. b.source.id == node_id) s.bundles)

module _ (j : Serde) where
  open j use {Text}

  unfoldable pub refresh_from_disk : Store Text → Store Text
  refresh_from_disk s =
      let (bundles, disk) = load_bundles_from_file j s.disk in
      record { layer = record s.layer { bundles = bundles }; disk = disk }

  -- `StorageLayer::new`, of a directory that exists or was created.
  unfoldable pub new_storage : String → ℕ → Disk Text → Store Text
  new_storage storage_dir capacity d =
      let (bundles, disk) = load_bundles_from_file j d in
      record {
        layer = record { storage_dir = storage_dir; bundles = bundles; capacity = capacity };
        disk = disk;
      }

  unfoldable pub save_to_file : Store Text → IoResult × Store Text
  save_to_file s = let (r, disk) = write_bundles j s.bundles s.disk in (r, record s { disk = disk })

  -- The result and the state after `match self.save_to_file() { Ok(_) => true, Err(_) => false }`.
  abbrev saved : Store Text → Bool × Store Text
  saved s = let (r, s') = save_to_file s in (is_ok r, s')

  unfoldable pub cleanup_expired_bundles : Clock → Store Text → ℕ × Store Text
  cleanup_expired_bundles c s =
      let s1 = refresh_from_disk s in
      let s2 = with_bundles s1 (retain (λ b. not (is_expired c b)) s1.bundles) in
      let removed_count = length s1.bundles - length s2.bundles in
      (removed_count, if ltb 0 removed_count then (save_to_file s2).1 else s2)

  unfoldable pub save_bundle : Clock → Bundle → Store Text → Bool × Store Text
  save_bundle c bundle s =
      let s1 = (cleanup_expired_bundles c (refresh_from_disk s)).1 in
      if is_data bundle.kind && has_ack_for_data_id bundle.id s1
      then (false, s1)
      else if leb s1.capacity (length s1.bundles)
      then (false, s1)
      else if any (has_id bundle.id) s1.bundles
      then (false, s1)
      else saved (with_bundles s1 (s1.bundles ++ bundle ∷ []))

  save_ack_of : BundleKind → Bundle → Store Text → Store Text → Bool × Store Text
  save_ack_of (ack ack_bundle_id) a s s1 =
      if any (is_ack_for ack_bundle_id) s1.bundles
      then (false, s1)
      else if leb s1.capacity (length s1.bundles)
      then (false, s1)
      else saved (with_bundles s1 (s1.bundles ++ a ∷ []))
  save_ack_of _ a s s1 = (false, s)

  -- The lock is held from the read to the write.
  unfoldable pub save_ack_if_new_for_data : Bundle → Store Text → Bool × Store Text
  unfolding save_ack_of
  save_ack_if_new_for_data a s = save_ack_of a.kind a s (refresh_from_disk s)

  unfoldable pub get_bundle : Uuid → Store Text → Option Bundle × Store Text
  get_bundle bundle_id s = let s1 = refresh_from_disk s in (find (has_id bundle_id) s1.bundles, s1)

  unfoldable pub get_all_bundles : Store Text → List Bundle × Store Text
  get_all_bundles s = let s1 = refresh_from_disk s in (s1.bundles, s1)

  unfoldable pub delete_bundle : Uuid → Store Text → Bool × Store Text
  delete_bundle bundle_id s =
      let s1 = refresh_from_disk s in
      let s2 = with_bundles s1 (retain (λ b. not (has_id bundle_id b)) s1.bundles) in
      if ltb (length s2.bundles) (length s1.bundles) then saved s2 else (false, s2)

  unfoldable pub update_bundle : Bundle → Store Text → Bool × Store Text
  update_bundle bundle s =
      let s1 = refresh_from_disk s in
      if is_data bundle.kind && has_ack_for_data_id bundle.id s1
      then (false, s1)
      else if any (has_id bundle.id) s1.bundles
      then saved (with_bundles s1 (modify_first (has_id bundle.id) (λ _. bundle) s1.bundles))
      else (false, s1)
