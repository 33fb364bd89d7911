-- ===== src/Disk/Persist.antt =====
-- What the functions of src/storage/storage.rs that read and write bundles.json return and leave.
use rusty_bundle.Prelude.{List, [], ◌∷◌, filter_map, true, false, ◌≡◌, ◌⊎◌, refl, arith}
use rusty_bundle.Model.{Bundle}
use rusty_bundle.Disk.{
  Serde, SerdeLaws, Disk, is_ok, parse_bundles, stored, payload, load_bundles_from_file,
  write_bundles,
}

module _ (j : Serde) (laws : SerdeLaws j) where
  filter_map-filter_map :
      (bs : List Bundle) → filter_map j.from_value (filter_map j.to_value bs) ≡ bs
  unfolding filter_map
  filter_map-filter_map [] = refl
  filter_map-filter_map (b ∷ bs) =
      let (v, to, from) = laws.from_value-to_value b in
      ground (arith, to, from, filter_map-filter_map bs)

  -- What was printed is parsed back.
  pub parse_bundles-payload : (bs : List Bundle) → parse_bundles j (payload j bs) ≡ bs
  unfolding parse_bundles payload
  parse_bundles-payload bs =
      let vs = filter_map j.to_value bs in
      ground (
        arith,
        laws.from_str-to_string_pretty (j.json_bundles vs),
        laws.bundles_array-json_bundles vs,
        filter_map-filter_map bs,
      )

  -- A write replaces the contents, or fails and keeps them.
  pub stored-write :
      (bs : List Bundle) (d : Disk j.Text)
      → ((is_ok (write_bundles j bs d).0 ≡ true) × (stored j (write_bundles j bs d).1 ≡ bs))
        ⊎ ((is_ok (write_bundles j bs d).0 ≡ false)
            × (stored j (write_bundles j bs d).1 ≡ stored j d))
  unfolding write_bundles stored
  stored-write bs d = ground (arith, parse_bundles-payload bs)

module _ (j : Serde) where
  -- A read returns the contents, or nothing.
  pub load_cases :
      (d : Disk j.Text)
      → ((load_bundles_from_file j d).0 ≡ stored j d) ⊎ ((load_bundles_from_file j d).0 ≡ [])
  unfolding load_bundles_from_file stored
  load_cases d = ground arith

  pub stored-load : (d : Disk j.Text) → stored j (load_bundles_from_file j d).1 ≡ stored j d
  unfolding load_bundles_from_file stored
  stored-load d = ground arith

  -- With no failure to come, a read returns the contents and changes nothing.
  pub load_reliable :
      (d : Disk j.Text) → d.outcomes ≡ [] → load_bundles_from_file j d ≡ (stored j d, d)
  unfolding load_bundles_from_file stored
  load_reliable d h = ground arith

  pub write_reliable :
      (bs : List Bundle) (d : Disk j.Text)
      → d.outcomes ≡ []
      → (is_ok (write_bundles j bs d).0 ≡ true) × ((write_bundles j bs d).1.outcomes ≡ [])
  unfolding write_bundles
  write_reliable bs d h = ground arith
