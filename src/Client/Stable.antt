-- ===== src/Client/Stable.antt =====
-- What the methods of the storage layer keep, a turn of `handle_peer_to_peer` (src/network/client.rs)
-- keeps.
use rusty_bundle.Prelude.{ℕ, map, Option, Option-cases, none, some, Bool-cases, not, inl, inr, ◌==◌}
use rusty_bundle.Model.{Bundle, BundleKind, data_msg, ack, request_sv, summary_vector}
use rusty_bundle.Disk.{Serde}
use rusty_bundle.Stream.{TcpStream, peek, read_upto}
use rusty_bundle.Protobuf.{Formats}
use rusty_bundle.BundleManager
use rusty_bundle.Storage.{Store}
use rusty_bundle.Storage.Stable.{IsStable}
use rusty_bundle.BundleManager.Stable.{has_bundle-IsStable, get_bundles_from_node-IsStable}
use rusty_bundle.Engine.{State}
use rusty_bundle.Engine.Route.{with_manager}
use rusty_bundle.Engine.Stable.{route_bundle-IsStable}
use rusty_bundle.Client.{
  Codec, Moment, receive_bundle, answer_sv, respond_peer_sv, route_received, by_first_byte,
  peer_turn,
}

module _ (j : Serde) (P : Store j.Text → Type 0) (stable : IsStable j P) (f : Formats)
    (codec : Codec) where
  -- The predicate of the engine's store.
  abbrev pub Keeps : State j.Text → Type 0
  Keeps st = P st.bundle_manager.storage

  answer_sv-IsStable :
      (k : Option BundleKind) (s : TcpStream) (st : State j.Text)
      → Keeps st
      → Keeps (answer_sv j f codec k s st).1
  unfolding answer_sv
  answer_sv-IsStable (some (request_sv from)) s st w =
      let bundles = (BundleManager.get_bundles_from_node j st.bundle_manager).0 in
      let w1 = get_bundles_from_node-IsStable j P stable st.bundle_manager w in
      elim (Option-cases (codec.to_vec (summary_vector (map (λ b. b.id) bundles)))) [
        | inl e ↦ rw (answer_sv, e) w1
        | inr (payload, e) ↦ rw (answer_sv, e) w1
      ]
  answer_sv-IsStable (some (data_msg m)) s st w = w
  answer_sv-IsStable (some (ack i)) s st w = w
  answer_sv-IsStable (some (summary_vector ids)) s st w = w
  answer_sv-IsStable none s st w = w

  route_received-IsStable :
      (m : Moment) (r : Option Bundle) (s : TcpStream) (st : State j.Text)
      → Keeps st
      → Keeps (route_received j f codec m r s st).2
  unfolding route_received
  route_received-IsStable m none s st w = w
  route_received-IsStable m (some b) s st w =
      let (known, manager) = BundleManager.has_bundle j b.id st.bundle_manager in
      let w1 = has_bundle-IsStable j P stable b.id st.bundle_manager w in
      elim (Bool-cases known) [
        | inl e ↦ rw (route_received, e) w1
        | inr e ↦
            rw (route_received, e)
              (elim (Bool-cases (not m.has_runtime)) [
                | inl e' ↦ rw e' w1
                | inr e' ↦ rw e' (
                    route_bundle-IsStable j P stable m.times m.fresh b (with_manager j st manager)
                      w1)
              ])
      ]

  by_first_byte-IsStable :
      (m : Moment) (first : Option ℕ) (s : TcpStream) (st : State j.Text)
      → Keeps st
      → Keeps (by_first_byte j f codec m first s st).2
  unfolding by_first_byte respond_peer_sv
  by_first_byte-IsStable m none s st w = w
  by_first_byte-IsStable m (some b) s st w =
      let (received, s1) = receive_bundle f codec s in
      let (buffer, s2) = read_upto 4096 s in
      elim (Bool-cases (b == 123)) [
        | inl e ↦ rw (by_first_byte, e) (answer_sv-IsStable (codec.from_slice buffer) s2 st w)
        | inr e ↦ rw (by_first_byte, e) (route_received-IsStable m received s1 st w)
      ]

  -- One turn of the loop that serves a peer.
  pub peer_turn-IsStable :
      (m : Moment) (s : TcpStream) (st : State j.Text)
      → Keeps st
      → Keeps (peer_turn j f codec m s st).2
  peer_turn-IsStable m s st w = by_first_byte-IsStable m (peek s) s st w
