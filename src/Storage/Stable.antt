-- ===== src/Storage/Stable.antt =====
-- Predicates on a store that every method of src/storage/storage.rs keeps: what is built from the
-- methods keeps them too.
use rusty_bundle.Prelude.{ℕ, ◌≡◌, ◌∙◌, arith}
use rusty_bundle.Model.{Uuid, Bundle, Clock}
use rusty_bundle.Disk.{Serde, SerdeLaws}
use rusty_bundle.Storage.{
  Store, refresh_from_disk, save_to_file, save_bundle, delete_bundle, update_bundle,
}
use rusty_bundle.Storage.Access.{capacity-cleanup}
use rusty_bundle.Storage.Invariant.{
  IsKept, refresh-IsKept, save_bundle-IsKept, delete_bundle-IsKept, update_bundle-IsKept,
}

pub record IsStable (j : Serde) (P : Store j.Text → Type 0) : Type 0 where
  pub refreshes : (s : Store j.Text) → P s → P (refresh_from_disk j s)
  pub saves : (c : Clock) (b : Bundle) (s : Store j.Text) → P s → P (save_bundle j c b s).1
  pub deletes : (id : Uuid) (s : Store j.Text) → P s → P (delete_bundle j id s).1
  pub updates : (b : Bundle) (s : Store j.Text) → P s → P (update_bundle j b s).1

module _ (j : Serde) (laws : SerdeLaws j) where
  pub IsKept-IsStable : IsStable j (IsKept j)
  IsKept-IsStable = record {
    refreshes = refresh-IsKept j laws;
    saves = save_bundle-IsKept j laws;
    deletes = delete_bundle-IsKept j laws;
    updates = update_bundle-IsKept j laws;
  }

  capacity-save_bundle :
      (c : Clock) (b : Bundle) (s : Store j.Text) → (save_bundle j c b s).1.capacity ≡ s.capacity
  unfolding save_bundle refresh_from_disk save_to_file
  capacity-save_bundle c b s = ground (arith, capacity-cleanup j laws c (refresh_from_disk j s))

  capacity-delete_bundle :
      (id : Uuid) (s : Store j.Text) → (delete_bundle j id s).1.capacity ≡ s.capacity
  unfolding delete_bundle refresh_from_disk save_to_file
  capacity-delete_bundle id s = ground arith

  capacity-update_bundle :
      (b : Bundle) (s : Store j.Text) → (update_bundle j b s).1.capacity ≡ s.capacity
  unfolding update_bundle refresh_from_disk save_to_file
  capacity-update_bundle b s = ground arith

  -- A store of the capacity, whose file is well formed.
  pub record IsKeptAt (capacity : ℕ) (s : Store j.Text) : Type 0 where
    pub limit : s.capacity ≡ capacity
    pub kept : IsKept j s

  pub IsKeptAt-IsStable : (capacity : ℕ) → IsStable j (IsKeptAt capacity)
  unfolding refresh_from_disk
  IsKeptAt-IsStable capacity = record {
    refreshes = λ s h. record { limit = h.limit; kept = refresh-IsKept j laws s h.kept };
    saves = λ c b s h. record {
      limit = capacity-save_bundle c b s ∙ h.limit;
      kept = save_bundle-IsKept j laws c b s h.kept;
    };
    deletes = λ id s h. record {
      limit = capacity-delete_bundle id s ∙ h.limit;
      kept = delete_bundle-IsKept j laws id s h.kept;
    };
    updates = λ b s h. record {
      limit = capacity-update_bundle b s ∙ h.limit;
      kept = update_bundle-IsKept j laws b s h.kept;
    };
  }
