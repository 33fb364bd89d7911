-- ===== src/Disk.antt =====
-- The file bundles.json of one node, with the JSON library and the file system that
-- src/storage/storage.rs calls, and its functions that read and write the file.
pub mod Persist
use rusty_bundle.Prelude.{
  String, List, [], ◌∷◌, filter_map, Option, none, some, Bool, true, false, ◌≡◌,
}
use rusty_bundle.Model.{Bundle}

-- serde_json: values, the text of a file, and the functions that the storage layer calls.
pub record Serde : Type 1 where
  pub Value : Type 0
  pub Text : Type 0
  -- `serde_json::to_value(bundle).ok()` and `serde_json::from_value::<Bundle>(value).ok()`
  pub to_value : Bundle → Option Value
  pub from_value : Value → Option Bundle
  -- `json!({ "bundles": values })`
  pub json_bundles : List Value → Value
  -- `value.get("bundles").and_then(|v| v.as_array())`
  pub bundles_array : Value → Option (List Value)
  -- `to_string_pretty` of a `Value`, which has string keys only and always prints
  pub to_string_pretty : Value → Text
  pub from_str : Text → Option Value

-- What the program relies on: what was written is read back.
pub record SerdeLaws (j : Serde) : Type 0 where
  pub from_str-to_string_pretty : (v : j.Value) → j.from_str (j.to_string_pretty v) ≡ some v
  pub bundles_array-json_bundles :
      (vs : List j.Value) → j.bundles_array (j.json_bundles vs) ≡ some vs
  pub from_value-to_value :
      (b : Bundle) → (v : j.Value) × (j.to_value b ≡ some v) × (j.from_value v ≡ some b)

pub data StorageError : Type 0 where
  not_found already_exists storage_full serialization_error : String → StorageError

-- How the next access of the file system ends. A failed write leaves some `leftover` in the
-- temporary file, and the message that the code makes of the error.
pub data Outcome (Text : Type 0) : Type 0 where
  done : Outcome Text
  fails : (leftover : Option Text) → (message : String) → Outcome Text

-- bundles.json, bundles.json.tmp, and how the coming accesses end (all that are not listed
-- succeed).
pub record Disk (Text : Type 0) : Type 0 where
  pub file : Option Text
  pub tmp : Option Text
  pub outcomes : List (Outcome Text)

pub data IoResult : Type 0 where
  ok : IoResult
  err : StorageError → IoResult

abbrev pub is_ok : IoResult → Bool
is_ok ok = true
is_ok (err e) = false

module _ {Text : Type 0} where
  abbrev pub next : List (Outcome Text) → Outcome Text
  next [] = done
  next (o ∷ os) = o

  abbrev pub later : List (Outcome Text) → List (Outcome Text)
  later [] = []
  later (o ∷ os) = os

module _ (j : Serde) where
  open j use {Text}

  -- The closure over the text of the file in `load_bundles_from_file_unlocked`.
  unfoldable pub parse_bundles : Text → List Bundle
  parse_bundles content = elim (j.from_str content) [
    | none ↦ []
    | some json_value ↦ elim (j.bundles_array json_value) [
      | none ↦ []
      | some bundles_array ↦ filter_map j.from_value bundles_array
    ]
  ]

  -- What the file holds.
  unfoldable pub stored : Disk Text → List Bundle
  stored d = elim d.file [ none ↦ [] | some content ↦ parse_bundles content ]

  abbrev read_outcome : Text → Outcome Text → List Bundle
  read_outcome content done = parse_bundles content
  read_outcome content (fails l m) = []

  abbrev load_from : Option Text → Disk Text → List Bundle × Disk Text
  load_from none d = ([], d)
  load_from (some content) d =
      (read_outcome content (next d.outcomes), record d { outcomes = later d.outcomes })

  unfoldable pub load_bundles_from_file : Disk Text → List Bundle × Disk Text
  load_bundles_from_file d = load_from d.file d

  -- `json!({ "bundles": json_bundles })`, printed.
  unfoldable pub payload : List Bundle → Text
  payload bundles = j.to_string_pretty (j.json_bundles (filter_map j.to_value bundles))

  abbrev write_outcome : Text → Outcome Text → Disk Text → IoResult × Disk Text
  write_outcome text done d = (ok, record d { file = some text; tmp = none })
  write_outcome text (fails l m) d = (err (serialization_error m), record d { tmp = l })

  -- `save_to_file` of `bundles`: create, write and sync the temporary file, then rename it.
  unfoldable pub write_bundles : List Bundle → Disk Text → IoResult × Disk Text
  write_bundles bundles d =
      write_outcome (payload bundles) (next d.outcomes) (record d { outcomes = later d.outcomes })
