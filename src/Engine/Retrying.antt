-- ===== src/Engine/Retrying.antt =====
-- What `retry_unsynced_bundles` (src/routing/engine.rs) hands over, and what it marks.
use mathlib.Core.List.{Mem, not-mem-nil}
use mathlib.Core.Path.{subst}
use rusty_bundle.Prelude.{
  List, [], ◌∷◌, ◌++◌, Option, Bool, Bool-cases, true, false, ◌||◌, ◌&&◌, not, ◌≡◌, refl, sym, ◌∙◌,
  ap, arith, inl, inr, contains, retain, length, unwrap_or, if◌then◌else◌,
}
use rusty_bundle.Model.{Uuid, Bundle, Clock}
use rusty_bundle.Disk.{Serde, SerdeLaws}
use rusty_bundle.Storage.Access.{held, IsReliable}
use rusty_bundle.Storage.Refinement.{get_all_bundles-Holds}
use rusty_bundle.BundleManager
use rusty_bundle.Registry.{PeerRecord}
use rusty_bundle.Engine.{
  Destination, Net, State, anti_entropy, get_peer_summary_vector, connected_peers, send_bundle,
  send_all, forward_to_each, address_of, is_nil,
}
use rusty_bundle.Engine.Route.{
  is_pending, is_in_transit, is_no_peer, retry_to, retry_each, retry_unsynced_bundles, mark_sent,
}
use rusty_bundle.Engine.Recipients.{reachable, connected-reachable}
use rusty_bundle.Engine.Branches.{engine_holds}
use rusty_bundle.Engine.Legs.{vectors-connected}
use rusty_bundle.Engine.Handing.{mem-retain, mem-forward_to_each}

-- `status == Pending || status == InTransit`
abbrev pub is_unsynced : Bundle → Bool
is_unsynced b = is_pending b.shipment_status || is_in_transit b.shipment_status

module _ (j : Serde) where
  -- The retry pass sends what the forwarding of a new bundle would send.
  retry_to-net :
      (bs : List Bundle) (to : Destination) (sent : List Uuid) (n : Net)
      → (retry_to j bs to sent n).1 ≡ send_all bs to n
  unfolding retry_to send_all
  retry_to-net [] to sent n = refl
  retry_to-net (b ∷ bs) to sent n =
      let (r, n1) = send_bundle b to n in
      retry_to-net bs to (if r && not (contains sent b.id) then sent ++ b.id ∷ [] else sent) n1

  retry_each-net :
      (bs : List Bundle) (ps : List PeerRecord) (sent : List Uuid) (n : Net)
      → (retry_each j bs ps sent n).1 ≡ (forward_to_each bs ps n).1
  unfolding retry_each forward_to_each
  retry_each-net bs [] sent n = refl
  retry_each-net bs (p ∷ ps) sent n =
      let (peer_sv, n1) = get_peer_summary_vector n in
      let missing = anti_entropy bs peer_sv in
      let (sent1, n2) = retry_to j missing (address_of p) sent n1 in
      retry_each-net bs ps sent1 n2
      ∙ ap (λ m. (forward_to_each bs ps m).1) (retry_to-net missing (address_of p) sent n1)

  no_nil : (bs : List Bundle) (b : Bundle) → Mem b bs → is_nil bs ≡ false
  no_nil [] b m = absurd (not-mem-nil m)
  no_nil (c ∷ bs) b m = refl

  some_peer :
      (before after : List PeerRecord) (p : PeerRecord) → is_no_peer j (before ++ p ∷ after) ≡ false
  some_peer [] after p = refl
  some_peer (q ∷ before) after p = refl

  -- No send that is to come succeeds.
  sendings-connected :
      (ids : List Uuid) (st : State j.Text)
      → (connected_peers st.node_id ids st.net).1.sendings ≡ st.net.sendings
  unfolding connected_peers
  sendings-connected ids st = ground arith

  retry_to-unsent :
      (bs : List Bundle) (to : Destination) (sent : List Uuid) (n : Net)
      → n.sendings ≡ []
      → ((retry_to j bs to sent n).0 ≡ sent) × ((retry_to j bs to sent n).1.sendings ≡ [])
  unfolding retry_to
  retry_to-unsent [] to sent n h = (refl, h)
  retry_to-unsent (b ∷ bs) to sent n h =
      let n1 = (send_bundle b to n).1 in
      let failed : (send_bundle b to n).0 ≡ false = ground arith in
      rw (retry_to, failed) (retry_to-unsent bs to sent n1 (ground arith))

  retry_each-unsent :
      (bs : List Bundle) (ps : List PeerRecord) (sent : List Uuid) (n : Net)
      → n.sendings ≡ []
      → (retry_each j bs ps sent n).0 ≡ sent
  unfolding retry_each get_peer_summary_vector
  retry_each-unsent bs [] sent n h = refl
  retry_each-unsent bs (p ∷ ps) sent n h =
      let (peer_sv, n1) = get_peer_summary_vector n in
      let missing = anti_entropy bs peer_sv in
      let same : n1.sendings ≡ [] = ground arith in
      let (e, k) = retry_to-unsent missing (address_of p) sent n1 same in
      retry_each-unsent bs ps _ (retry_to j missing (address_of p) sent n1).1 k ∙ e

  module _ (laws : SerdeLaws j) (c : Clock) (st : State j.Text)
      (r : IsReliable st.bundle_manager.storage) where
    stored_all : (BundleManager.get_bundles_from_node j st.bundle_manager).0 ≡ engine_holds j st
    unfolding BundleManager.get_bundles_from_node
    stored_all = (get_all_bundles-Holds j laws st.bundle_manager.storage r).0

    stored_same :
        held j (BundleManager.get_bundles_from_node j st.bundle_manager).1.storage
        ≡ engine_holds j st
    unfolding BundleManager.get_bundles_from_node
    stored_same = (get_all_bundles-Holds j laws st.bundle_manager.storage r).1.on_disk

    -- With no failure of the file system: a retry pass hands each bundle of the store that is
    -- pending or in transit to each connected peer whose summary vector lacks its id.
    pub retry_unsynced_bundles-hands :
        (before after : List PeerRecord) (p : PeerRecord) (vs rest : List (Option (List Uuid)))
        → (v : Option (List Uuid)) (b : Bundle) → Mem b (engine_holds j st)
        → is_unsynced b ≡ true
        → reachable st ≡ before ++ p ∷ after
        → st.net.vectors ≡ vs ++ v ∷ rest
        → length before ≡ length vs
        → contains (unwrap_or v []) b.id ≡ false
        → Mem (b, address_of p) (retry_unsynced_bundles j c st).net.log
    unfolding retry_unsynced_bundles
    retry_unsynced_bundles-hands before after p vs rest v b there unsynced near answers place
          lacks =
        let (ps, n1) = connected_peers st.node_id st.peers st.net in
        let near' : ps ≡ before ++ p ∷ after = (connected-reachable st.peers st).0 ∙ near in
        let local_sv = (BundleManager.get_bundles_from_node j st.bundle_manager).0 in
        let retryable = retain is_unsynced local_sv in
        let chosen : Mem b retryable =
          mem-retain is_unsynced local_sv b unsynced (subst (Mem b) (sym stored_all) there) in
        let busy : is_no_peer j ps ≡ false = ap (is_no_peer j) near' ∙ some_peer before after p in
        let waiting : is_nil retryable ≡ false = no_nil retryable b chosen in
        let handed : Mem (b, address_of p) (retry_each j retryable ps [] n1).1.log =
          rw (retry_each-net retryable ps [] n1, near')
            (mem-forward_to_each before after p vs rest v retryable b n1
              (vectors-connected st.peers st ∙ answers) place lacks chosen) in
        rw (busy, waiting) handed

    -- With no failure of the file system: a retry pass of which every send fails leaves the store as
    -- it was, so that what it tried to send stays pending or in transit.
    pub retry_unsynced_bundles-unsent :
        st.net.sendings ≡ [] → engine_holds j (retry_unsynced_bundles j c st) ≡ engine_holds j st
    unfolding retry_unsynced_bundles mark_sent
    retry_unsynced_bundles-unsent none_succeeds =
        let (ps, n1) = connected_peers st.node_id st.peers st.net in
        let (local_sv, m1) = BundleManager.get_bundles_from_node j st.bundle_manager in
        let retryable = retain is_unsynced local_sv in
        let nothing : (retry_each j retryable ps [] n1).0 ≡ [] =
          (retry_each-unsent retryable ps [] n1 (sendings-connected st.peers st ∙ none_succeeds)) in
        elim (Bool-cases (is_no_peer j ps)) [
          | inl e ↦ rw e refl
          | inr e ↦ rw e (elim (Bool-cases (is_nil retryable)) [
            | inl e ↦ rw e stored_same
            | inr e ↦ rw (e, nothing) stored_same
          ])
        ]
