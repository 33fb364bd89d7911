-- ===== src/BundleManager/Contents.antt =====
-- What the bundle manager (src/routing/bundleManager.rs) does to the list of bundles in the file.
use rusty_bundle.Prelude.{ℕ, List, Bool, false, ◌||◌, if◌then◌else◌, any}
use rusty_bundle.Model.{Uuid, Bundle, Clock}
use rusty_bundle.Storage.{has_id, is_ack_for}
use rusty_bundle.Storage.Contents.{without, save, update}

-- The entry of the same id is replaced where there is one.
unfoldable pub upsert : Clock → ℕ → Bundle → List Bundle → Bool × List Bundle
upsert c capacity b l = if any (has_id b.id) l then update b l else save c capacity b l

-- The acknowledgement `a` of the data bundle `d` drops that bundle, and is kept if it is the first.
unfoldable pub accept_ack : Clock → ℕ → Uuid → Bundle → List Bundle → Bool × List Bundle
accept_ack c capacity d a l =
    let rest = without d l in
    if any (is_ack_for d) rest || any (has_id a.id) rest
    then (false, rest)
    else save c capacity a rest
