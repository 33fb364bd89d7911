-- ===== src/Client/Vectors.antt =====
-- The exchange of summary vectors between `request_peer_sv` and `respond_peer_sv`
-- (src/network/client.rs).
use rusty_bundle.Prelude.{
  ℕ, suc, zero, ◌^◌, ◌≤◌, ◌<◌, List, [], ◌∷◌, ◌++◌, map, Option, none, some, ◌≡◌, refl, sym, arith,
  ap, ◌∙◌, length, Bool, not, if◌then◌else◌, Option-cases, inl, inr,
}
use rusty_bundle.Model.{Uuid, request_sv, summary_vector}
use rusty_bundle.Disk.{Serde, SerdeLaws}
use rusty_bundle.Stream.{TcpStream, read_upto, split_upto, read_exact, split_exact, from_be_bytes}
use rusty_bundle.Storage.Access.{IsReliable}
use rusty_bundle.Storage.Refinement.{get_all_bundles-Holds}
use rusty_bundle.Protobuf.{Formats}
use rusty_bundle.BundleManager
use rusty_bundle.Engine.{State}
use rusty_bundle.Engine.Branches.{engine_holds}
use rusty_bundle.Client.{
  Codec, request_over, requested_ids, answer_sv, respond_peer_sv, write_frame, read_frame,
}
use rusty_bundle.Client.Frames.{frame, read_frame-frame, write_frame_reliable, write_all_reliable}

split_upto_all : (n : ℕ) (bs : List ℕ) → length bs ≤ n → split_upto n bs ≡ (bs, [])
split_upto_all zero [] h = refl
split_upto_all zero (b ∷ bs) h = ground arith
split_upto_all (suc n) [] h = refl
split_upto_all (suc n) (b ∷ bs) h = ap (λ r. (b ∷ r.0, r.1)) (split_upto_all n bs (omega arith))

pub read_upto_all :
    (n : ℕ) (bs : List ℕ) (s : TcpStream)
    → s.arrivals ≡ []
    → s.incoming ≡ bs
    → length bs ≤ n
    → read_upto n s ≡ (bs, record s { incoming = [] })
read_upto_all n bs s ea ei h =
    let all : split_upto n s.incoming ≡ (bs, []) = rw ei (split_upto_all n bs h) in
    simp (read_upto, ea, all)

append-nil : (bs : List ℕ) → bs ++ [] ≡ bs
append-nil [] = refl
append-nil (b ∷ bs) = ap (b ∷◌) (append-nil bs)

-- What is read leaves what was sent.
read_exact-outgoing : (n : ℕ) (s : TcpStream) → (read_exact n s).1.outgoing ≡ s.outgoing
read_exact-outgoing n s = elim (Option-cases (split_exact n s.incoming)) [
  | inl e ↦ rw (read_exact, e) refl
  | inr (bs, e) ↦ rw (read_exact, e) refl
]

read_frame-outgoing : (s : TcpStream) → (read_frame s).1.outgoing ≡ s.outgoing
unfolding read_frame
read_frame-outgoing s =
    let (len_buf, s1) = read_exact 4 s in
    let same = read_exact-outgoing 4 s in
    elim (Option-cases len_buf) [
      | inl e ↦ rw (read_frame, e) same
      | inr (bs, e) ↦ rw (read_frame, e) (read_exact-outgoing (from_be_bytes bs) s1 ∙ same)
    ]

-- The ids of the bundles in the node's file.
abbrev pub ids_held : (j : Serde) → State j.Text → List Uuid
ids_held j st = map (λ b. b.id) (engine_holds j st)

module _ (j : Serde) (laws : SerdeLaws j) (f : Formats) (codec : Codec) where
  -- With no failure of the node's file system or of its writes: if one read finds exactly a request
  -- of a summary vector, of at most 4096 bytes, the node answers with the frame of the ids in store.
  respond_peer_sv-frame :
      (from : Uuid) (request payload : List ℕ) (s : TcpStream) (st : State j.Text)
      → IsReliable st.bundle_manager.storage
      → codec.from_slice request ≡ some (request_sv from)
      → length request ≤ 4096
      → s.arrivals ≡ []
      → s.incoming ≡ request
      → s.writes ≡ []
      → codec.to_vec (summary_vector (ids_held j st)) ≡ some payload
      → (respond_peer_sv j f codec s st).0
        ≡ record s { incoming = []; outgoing = s.outgoing ++ frame payload }
  unfolding respond_peer_sv answer_sv BundleManager.get_bundles_from_node
  respond_peer_sv-frame from request payload s st r asked small ea ei ew told =
      let read = read_upto_all 4096 request s ea ei small in
      let (ids, h) = get_all_bundles-Holds j laws st.bundle_manager.storage r in
      let s1 = record s { incoming = [] } in
      let bundles = (BundleManager.get_bundles_from_node j st.bundle_manager).0 in
      let told' : codec.to_vec (summary_vector (map (λ b. b.id) bundles)) ≡ some payload =
        rw ids told in
      let answered : (answer_sv j f codec (some (request_sv from)) s1 st).0
          ≡ (write_frame payload s1).1 =
        rw (answer_sv, told') refl in
      ap (λ r. (answer_sv j f codec (codec.from_slice r.0) r.1 st).0) read
      ∙ ap (λ k. (answer_sv j f codec k s1 st).0) asked
      ∙ answered
      ∙ ap (λ r. r.1) (write_frame_reliable payload s1 ew)

  -- What the asker makes of the frame that it reads.
  abbrev understood : Option (List ℕ) → TcpStream → Option (List Uuid) × TcpStream
  understood buffer s = elim buffer [
    | none ↦ (none, s)
    | some bytes ↦ (elim (codec.from_slice bytes) [
      | none ↦ (none, s)
      | some kind ↦ (requested_ids f codec kind, s)
    ])
  ]

  understood-same : (buffer : Option (List ℕ)) (s : TcpStream) → (understood buffer s).1 ≡ s
  understood-same none s = refl
  understood-same (some bytes) s = elim (Option-cases (codec.from_slice bytes)) [
    | inl e ↦ rw (understood, e) refl
    | inr (kind, e) ↦ rw (understood, e) refl
  ]

  request_over-understood :
      (from : Uuid) (request : List ℕ) (asker : TcpStream)
      → codec.to_vec (request_sv from) ≡ some request
      → asker.writes ≡ []
      → let (buffer, s2) = read_frame (record asker { outgoing = asker.outgoing ++ request }) in
        request_over f codec from asker ≡ understood buffer s2
  unfolding request_over
  request_over-understood from request asker asks aw =
      let after = λ (w : Bool × TcpStream).
        let (buffer, s2) = read_frame w.1 in
        if not w.0 then (none, w.1) else understood buffer s2 in
      rw (request_over, asks) (ap after (write_all_reliable request asker aw))

  -- Whatever the answer is, what the asker writes is the request.
  request_over-outgoing :
      (from : Uuid) (request : List ℕ) (asker : TcpStream)
      → codec.to_vec (request_sv from) ≡ some request
      → asker.writes ≡ []
      → (request_over f codec from asker).1.outgoing ≡ asker.outgoing ++ request
  request_over-outgoing from request asker asks aw =
      let a1 = record asker { outgoing = asker.outgoing ++ request } in
      let (buffer, s2) = read_frame a1 in
      ap (λ r. r.1.outgoing) (request_over-understood from request asker asks aw)
      ∙ ap (λ s. s.outgoing) (understood-same buffer s2)
      ∙ read_frame-outgoing a1

  -- A request of a summary vector, of at most 4096 bytes, goes over a fresh connection to a node: one
  -- read of the node finds exactly the bytes that the asker writes, and the asker finds exactly those
  -- that the node writes. If all writes succeed, both messages are read as what was meant, the answer is
  -- below 2^32 bytes, and the node's file system does not fail, the asker gets exactly the ids of the
  -- bundles in the node's file, in their order.
  pub request-respond :
      (from : Uuid) (request payload : List ℕ) (asker s : TcpStream) (st : State j.Text)
      → IsReliable st.bundle_manager.storage
      → codec.to_vec (request_sv from) ≡ some request
      → codec.from_slice request ≡ some (request_sv from)
      → length request ≤ 4096
      → codec.to_vec (summary_vector (ids_held j st)) ≡ some payload
      → codec.from_slice payload ≡ some (summary_vector (ids_held j st))
      → length payload < 2 ^ 32
      → asker.writes ≡ []
      → asker.outgoing ≡ []
      → s.writes ≡ []
      → s.outgoing ≡ []
      → s.arrivals ≡ []
      → s.incoming ≡ (request_over f codec from asker).1.outgoing
      → asker.incoming ≡ (respond_peer_sv j f codec s st).0.outgoing
      → (request_over f codec from asker).0 ≡ some (ids_held j st)
  unfolding request_over
  request-respond from request payload asker s st r asks asked small tells told short aw ao sw so sa
        si ai =
      let sent = write_all_reliable request asker aw in
      let arrived : s.incoming ≡ request =
        si ∙ request_over-outgoing from request asker asks aw ∙ ap (λ bs. bs ++ request) ao in
      let answer =
        respond_peer_sv-frame from request payload s st r asked small sa arrived sw tells in
      let a1 = record asker { outgoing = asker.outgoing ++ request } in
      let back : asker.incoming ≡ frame payload ++ [] =
        ai
        ∙ ap (λ s. s.outgoing) answer
        ∙ ap (λ bs. bs ++ frame payload) so
        ∙ sym (append-nil (frame payload)) in
      let got = read_frame-frame payload [] a1 short back in
      rw (request_over, asks, sent, got, told) refl
