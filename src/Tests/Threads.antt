-- ===== src/Tests/Threads.antt =====
-- Threads that share one file: src/storage/storage.rs section by section.
use rusty_bundle.Prelude.{List, [], ◌∷◌, true, false, ◌≡◌, refl, arith, filter_map, any}
use rusty_bundle.Model.{Clock, is_expired}
use rusty_bundle.Disk.{stored, parse_bundles}
use rusty_bundle.Storage.{has_id}
use rusty_bundle.Storage.Contents.{IsWellFormed, save, add, delete}
use rusty_bundle.Storage.Calls.{Call, saves, deletes}
use rusty_bundle.Storage.Sections.{returned, code_of, section}
use rusty_bundle.Storage.Serial.{serial, serial_on_list, serial-Refines}
use rusty_bundle.Storage.Threads.{
  System, calls, passes, Reach, here, next, set_thread, Reach-IsWellFormed,
}
use rusty_bundle.Storage.Race.{saves_race}
use rusty_bundle.Samples.{Json, json, json_laws, clock_at, hello, brief, disk_of}

-- A bundle is saved, another one deleted, and the first one is refused.
abbrev three_calls : List (Clock × Call)
three_calls =
    (clock_at 101, saves hello) ∷ (clock_at 101, deletes 11) ∷ (clock_at 102, saves hello) ∷ []

serial-Refines_example :
    let (rs, d') = serial json 3 three_calls (disk_of (brief ∷ []) []) in
    let (results, l) = serial_on_list 3 three_calls (stored json (disk_of (brief ∷ []) [])) in
    (rs ≡ results) × (stored json d' ≡ l)
serial-Refines_example = serial-Refines json json_laws 3 three_calls (disk_of (brief ∷ []) []) refl

three_results :
    (serial_on_list 3 three_calls (stored json (disk_of (brief ∷ []) []))).0
    ≡ true ∷ true ∷ false ∷ []
unfolding serial_on_list save add delete stored parse_bundles filter_map is_expired
three_results = refl

abbrev idle : System Json
idle = record { disk = disk_of (brief ∷ []) []; threads = λ i. returned true }

-- Thread 0 begins to save a bundle, thread 1 to delete one, and both pass through a section.
abbrev between : System Json
between =
    let first = code_of 3 (clock_at 101) (saves hello) in
    let second = code_of 3 (clock_at 101) (deletes 11) in
    let started = set_thread (set_thread idle.threads 0 first) 1 second in
    let (c1, d1) = section json (started 0) idle.disk in
    let threads1 = set_thread started 0 c1 in
    let (c2, d2) = section json (threads1 1) d1 in
    record { disk = d2; threads = set_thread threads1 1 c2 }

between-Reach : Reach json 3 idle between
between-Reach =
    next
      (next
        (next (next here (calls 0 true (clock_at 101) (saves hello) refl))
          (calls 1 true (clock_at 101) (deletes 11) refl))
        (passes 0))
      (passes 1)

idle-IsWellFormed : IsWellFormed 3 (stored json idle.disk)
unfolding stored parse_bundles filter_map
idle-IsWellFormed = record { unique = (refl, tt); bounded = omega arith }

Reach-IsWellFormed_example : IsWellFormed 3 (stored json between.disk)
Reach-IsWellFormed_example =
    Reach-IsWellFormed json json_laws 3 between-Reach (λ i. (true, refl)) idle-IsWellFormed

saves_race_example :
    (t : System Json) × Reach json 3 idle t
    × (t.threads 0 ≡ returned true)
    × (t.threads 1 ≡ returned true)
    × (any (has_id 10) (stored json t.disk) ≡ false)
unfolding stored parse_bundles filter_map is_expired
saves_race_example =
    saves_race json json_laws 3 (clock_at 101) hello (record hello { id = 12 }) true true idle refl
      refl refl refl refl refl (omega arith)
