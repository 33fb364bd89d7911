-- ===== src/Tests/Stores.antt =====
-- Stores of a few bundles: src/storage/storage.rs and src/routing/bundleManager.rs at work.
use rusty_bundle.Prelude.{
  List, [], ◌∷◌, none, true, false, ◌≡◌, ◌⊎◌, refl, arith, filter_map, any, ◌<◌, ◌≤◌, ◌^◌, ◌↔◌,
}
use rusty_bundle.Model.{Bundle, Clock, data_msg, ack, is_expired}
use rusty_bundle.Model.Expiry.{is_expired_iff}
use rusty_bundle.Disk.{
  done, fails, stored, load_bundles_from_file, write_bundles, parse_bundles, payload,
}
use rusty_bundle.Storage
use rusty_bundle.Storage.{
  Store, has_id, is_ack_for, save_bundle, delete_bundle, update_bundle, refresh_from_disk,
  save_to_file, cleanup_expired_bundles, has_ack_for_data_id, get_bundle, get_all_bundles,
}
use rusty_bundle.Storage.Contents.{save, delete, update, add, live, IsWellFormed}
use rusty_bundle.Storage.Access.{held, Holds}
use rusty_bundle.Storage.Refinement.{Refines, save_bundle-Refines}
use rusty_bundle.Storage.Invariant.{IsKept}
use rusty_bundle.Storage.Calls.{Call, saves, updates, deletes, gets, cleans, run, run-IsKept}
use rusty_bundle.Storage.Faults.{Saves, save_bundle-Saves, save_bundle_forgets}
use rusty_bundle.Storage.Sequences.{run_list, step_list, held-run}
use rusty_bundle.Storage.Settled.{AckStays, is_data_of, run-stays_gone}
use rusty_bundle.BundleManager.{BundleManager, upsert, incoming, drop_expired_bundles}
use rusty_bundle.BundleManager.Contents as Lists
use rusty_bundle.BundleManager.Refinement.{upsert-Refines, incoming-Refines}
use rusty_bundle.BundleManager.Expired.{drop_expired_bundles-Holds}
use rusty_bundle.Samples.{
  Json, json, json_laws, clock_at, hello, brief, hello_ack, store_of, bundle_of,
}

-- A store that holds a brief bundle.
abbrev small : Store Json
small = store_of (brief ∷ []) []

-- At second 110 the brief bundle has expired and the other one is added.
save_after_expiry :
    ((save_bundle json (clock_at 110) hello small).0 ≡ true)
    × (held json (save_bundle json (clock_at 110) hello small).1 ≡ hello ∷ [])
unfolding save_bundle refresh_from_disk save_to_file cleanup_expired_bundles has_ack_for_data_id
    load_bundles_from_file write_bundles stored parse_bundles payload filter_map is_expired
save_after_expiry = (refl, refl)

save_bundle-Refines_example :
    Refines json
      (save (clock_at 110) 3 hello (held json small))
      3
      (save_bundle json (clock_at 110) hello small)
save_bundle-Refines_example = save_bundle-Refines json json_laws small refl (clock_at 110) hello

abbrev calls : List (Clock × Call)
calls =
    (clock_at 101, saves hello)
    ∷ (clock_at 102, saves hello)
    ∷ (clock_at 103, gets 10)
    ∷ (clock_at 120, cleans)
    ∷ (clock_at 121, deletes 10)
    ∷ []

small-IsWellFormed : IsKept json small
unfolding stored parse_bundles filter_map
small-IsWellFormed = record { unique = (refl, tt); bounded = omega arith }

-- The store, where the second access of the file system fails.
abbrev faulty : Store Json
faulty = store_of (brief ∷ []) (done ∷ fails none "interrupted" ∷ [])

faulty-IsWellFormed : IsKept json faulty
unfolding stored parse_bundles filter_map
faulty-IsWellFormed = record { unique = (refl, tt); bounded = omega arith }

run-IsKept_example : IsKept json (run json faulty calls)
run-IsKept_example = run-IsKept json json_laws faulty calls faulty-IsWellFormed

held-run_example :
    (held json (run json small calls) ≡ run_list 3 (held json small) calls)
    × ((run json small calls).capacity ≡ 3)
held-run_example = held-run json json_laws small calls refl

save_bundle-Saves_example :
    let (r, s') = save_bundle json (clock_at 101) hello faulty in
    Saves (clock_at 101) hello (held json faulty) r (held json s')
save_bundle-Saves_example = save_bundle-Saves json json_laws (clock_at 101) hello faulty

-- The brief bundle has not expired, and is lost.
save_bundle_forgets_example :
    ((save_bundle json (clock_at 101) hello faulty).0 ≡ true)
    × (held json (save_bundle json (clock_at 101) hello faulty).1 ≡ hello ∷ [])
save_bundle_forgets_example =
    save_bundle_forgets json json_laws (clock_at 101) hello faulty _ none "interrupted" refl refl
      (omega arith)

-- The acknowledgement of `hello` is in store, and `hello` is not.
abbrev settled : Store Json
settled = store_of (hello_ack ∷ []) []

abbrev resends : List (Clock × Call)
resends = (clock_at 110, saves hello) ∷ (clock_at 111, updates hello) ∷ []

settled-AckStays : AckStays 10 3 (held json settled) resends
unfolding stored parse_bundles filter_map is_expired step_list save add update
settled-AckStays = (refl, (refl, tt))

settled_gone : any (is_data_of 10) (held json settled) ≡ false
unfolding stored parse_bundles filter_map
settled_gone = refl

run-stays_gone_example : any (is_data_of 10) (held json (run json settled resends)) ≡ false
run-stays_gone_example =
    run-stays_gone json json_laws 10 settled resends refl settled-AckStays settled_gone

-- `hello` is in store when its acknowledgement comes.
abbrev waiting : Store Json
waiting = store_of (hello ∷ brief ∷ []) []

incoming-Refines_example :
    Refines json
      (Lists.accept_ack (clock_at 102) 3 10 hello_ack (held json waiting))
      3
      (incoming json (ack 10) (clock_at 102) hello_ack waiting)
incoming-Refines_example = incoming-Refines json json_laws (clock_at 102) hello_ack 10 waiting refl

upsert-Refines_example :
    Refines json
      (Lists.upsert (clock_at 102) 3 hello (held json waiting))
      3
      (upsert json (clock_at 102) hello waiting)
upsert-Refines_example = upsert-Refines json json_laws (clock_at 102) hello waiting refl

abbrev manager : BundleManager Json
manager = record { node_id = 2; storage = waiting }

waiting-UniqueIds : Storage.Contents.UniqueIds (held json waiting)
unfolding stored parse_bundles filter_map
waiting-UniqueIds = (refl, (refl, tt))

drop_expired_bundles-Holds_example :
    Holds json
      (live (clock_at 110) (held json waiting))
      3
      (drop_expired_bundles json (clock_at 110) manager).storage
drop_expired_bundles-Holds_example =
    drop_expired_bundles-Holds json json_laws (clock_at 110) manager refl waiting-UniqueIds

-- A ttl of 2^63 seconds.
abbrev endless : Bundle
endless = bundle_of 12 (data_msg "forever") (2 ^ 63)

is_expired_iff_example :
    (is_expired (clock_at 101) endless ≡ true) ↔ ((2 ^ 63 < 1) ⊎ (2 ^ 63 ≤ 2 ^ 63))
is_expired_iff_example = is_expired_iff (clock_at 101) endless 1 (omega arith) refl
