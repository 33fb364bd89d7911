-- ===== src/BundleManager/Expired.antt =====
-- `drop_expired_bundles` (src/routing/scf.rs), which deletes expired bundles one by one, leaves the
-- file as the single pass of `cleanup_expired_bundles` (src/storage/storage.rs) does.
use mathlib.Core.Path.{subst₂}
use rusty_bundle.Prelude.{
  ℕ, List, [], ◌∷◌, Bool, Bool-cases, false, not, ◌≡◌, refl, ap, arith, inl, inr, any, contains,
  map, retain, retain-not_none, ==-refl,
}
use rusty_bundle.Model.{Uuid, Bundle, Clock, is_expired}
use rusty_bundle.Disk.{Serde, SerdeLaws}
use rusty_bundle.Storage
use rusty_bundle.Storage.{Store, has_id}
use rusty_bundle.Storage.Contents.{live, without, delete, UniqueIds}
use rusty_bundle.Storage.Access.{Holds, held, IsReliable}
use rusty_bundle.Storage.Refinement.{delete_bundle-Refines, get_all_bundles-Holds}
use rusty_bundle.BundleManager.{BundleManager, delete_each, drop_expired_bundles}

without_each : List Uuid → List Bundle → List Bundle
without_each [] l = l
without_each (id ∷ ids) l = without_each ids (without id l)

abbrev ids_of : List Bundle → List Uuid
ids_of = map (λ b. b.id)

without_each-cons :
    (ids : List Uuid) (x : Bundle) (xs : List Bundle)
    → contains ids x.id ≡ false
    → without_each ids (x ∷ xs) ≡ x ∷ without_each ids xs
unfolding without_each
without_each-cons [] x xs h = refl
without_each-cons (id ∷ ids) x xs h = ground (arith, without_each-cons ids x (without id xs))

not-contains :
    (p : Bundle → Bool) (id : Uuid) (l : List Bundle)
    → any (has_id id) l ≡ false
    → contains (ids_of (retain p l)) id ≡ false
not-contains p id [] h = refl
not-contains p id (x ∷ xs) h = ground (arith, not-contains p id xs)

-- Where ids are unique, the deletions by id take what a pass by the test takes.
without_each-retain :
    (p : Bundle → Bool) (l : List Bundle)
    → UniqueIds l
    → without_each (ids_of (retain p l)) l ≡ retain (λ b. not (p b)) l
unfolding without_each
without_each-retain p [] u = refl
without_each-retain p (x ∷ xs) u =
    let ids = ids_of (retain p xs) in
    let ih = without_each-retain p xs u.1 in
    elim (Bool-cases (p x)) [
      | inl t ↦ rw (t, without_each, ==-refl x.id, retain-not_none (has_id x.id) xs u.0) ih
      | inr f ↦ rw (f, without_each-cons ids x xs (not-contains p x.id xs u.0)) (ap (λ l. x ∷ l) ih)
    ]

module _ (j : Serde) (laws : SerdeLaws j) where
  delete_each-Holds :
      (ids : List Uuid) {l : List Bundle} {capacity : ℕ} (s : Store j.Text)
      → Holds j l capacity s
      → Holds j (without_each ids l) capacity (delete_each j ids s)
  unfolding delete_each without_each
  delete_each-Holds [] s h = h
  delete_each-Holds (id ∷ ids) {l} {capacity} s h =
      let s1 = (Storage.delete_bundle j id s).1 in
      let r = delete_bundle-Refines j laws s h.reliable id in
      delete_each-Holds ids {l = without id l} {capacity = capacity} s1
        (unfold delete in subst₂ (λ k n. Holds j (without id k) n s1) h.on_disk h.limit r.state)

  -- With no failure, and no id twice in the file, `drop_expired_bundles` leaves in the file exactly
  -- the bundles that have not expired, in their order.
  pub drop_expired_bundles-Holds :
      (c : Clock) (m : BundleManager j.Text)
      → IsReliable m.storage
      → UniqueIds (held j m.storage)
      → Holds j (live c (held j m.storage)) m.storage.capacity (drop_expired_bundles j c m).storage
  unfolding drop_expired_bundles
  drop_expired_bundles-Holds c m r u =
      let (e, h) = get_all_bundles-Holds j laws m.storage r in
      let s1 = (Storage.get_all_bundles j m.storage).1 in
      let l = held j m.storage in
      rw e (
        rw (← without_each-retain (is_expired c) l u)
          (delete_each-Holds (ids_of (retain (is_expired c) l)) s1 h))
