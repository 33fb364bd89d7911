-- ===== src/Client/Directory.antt =====
-- The calls of the registry server in src/network/client.rs, and their way to the server
-- (src/network/server.rs) and back.
use rusty_bundle.Prelude.{
  ℕ, ◌≤◌, ◌<◌, arith, refl, ◌∙◌, Bool, List, [], ◌∷◌, Option, none, some, not, ◌++◌, ◌≡◌, ap,
  length, unwrap_or, if◌then◌else◌,
}
use rusty_bundle.Model.{Uuid, PlainNode}
use rusty_bundle.Stream.{TcpStream, read_upto, write_all}
use rusty_bundle.Registry.{
  Registry, PeerRecord, ServerRequest, register, get_connected, ServerResponse, ok, peers, error,
  handle_read, get_connected_peers,
}
use rusty_bundle.Registry.Wire.{ServerCodec, received_of, write_json, write_each, serve_read}
use rusty_bundle.Client.{Dial, connect_with_retry}
use rusty_bundle.Client.Frames.{write_all_reliable}
use rusty_bundle.Client.Exchange.{connect_first}
use rusty_bundle.Client.Vectors.{read_upto_all}

-- `serde_json::to_vec` and `to_string` of a request, and `serde_json::from_slice` of a response.
pub record DirectoryCodec : Type 0 where
  pub to_vec : ServerRequest → Option (List ℕ)
  pub from_slice : List ℕ → Option ServerResponse

-- `Ok(ServerResponse::Peers(peers)) => peers, _ => vec![]`
abbrev pub peers_of : Option ServerResponse → List PeerRecord
peers_of (some (peers ps)) = ps
peers_of (some ok) = []
peers_of (some (error message)) = []
peers_of none = []

-- What is read leaves what was sent.
read_upto-outgoing : (n : ℕ) (s : TcpStream) → (read_upto n s).1.outgoing ≡ s.outgoing
read_upto-outgoing n s = by_arrivals s.arrivals
  where
    by_arrivals : (ks : List ℕ) → (read_upto n (record s { arrivals = ks })).1.outgoing ≡ s.outgoing
    by_arrivals [] = refl
    by_arrivals (k ∷ ks) = refl

module _ (codec : DirectoryCodec) where
  -- The acknowledgement is read and not looked at.
  register_over : PlainNode → TcpStream → Option TcpStream
  register_over node s =
      let (sent, s1) = write_all (unwrap_or (codec.to_vec (register node)) []) s in
      if not sent then none else some (read_upto 1024 s1).1

  unfoldable pub connect_to_server : PlainNode → Dial → Option TcpStream × Dial
  unfolding register_over
  connect_to_server node d =
      let (connection, d1) = connect_with_retry 3 d in
      elim connection [ none ↦ (none, d1) | some s ↦ (register_over node s, d1) ]

  -- The stream is returned for what it has sent.
  unfoldable pub query_over : List Uuid → TcpStream → List PeerRecord × TcpStream
  query_over requested_ids s =
      let (sent, s1) = write_all (unwrap_or (codec.to_vec (get_connected requested_ids)) []) s in
      let (buf, s2) = read_upto 16384 s1 in
      if not sent then ([], s1) else (peers_of (codec.from_slice buf), s2)

  unfoldable pub get_connected_peers_from_server : List Uuid → Dial → List PeerRecord × Dial
  get_connected_peers_from_server requested_ids d =
      let (connection, d1) = connect_with_retry 3 d in
      elim connection [ none ↦ ([], d1) | some s ↦ ((query_over requested_ids s).0, d1) ]

  -- What the client writes is the request.
  query_over-outgoing :
      (ids : List Uuid) (asked : List ℕ) (s : TcpStream)
      → codec.to_vec (get_connected ids) ≡ some asked
      → s.writes ≡ []
      → (query_over ids s).1.outgoing ≡ s.outgoing ++ asked
  unfolding query_over
  query_over-outgoing ids asked s asks sw =
      let after = λ (w : Bool × TcpStream).
        let (buf, s2) = read_upto 16384 w.1 in
        if◌then◌else◌ {A = List PeerRecord × TcpStream} (not w.0) ([], w.1)
          (peers_of (codec.from_slice buf), s2) in
      rw (query_over, asks)
        (ap (λ w. (after w).1.outgoing) (write_all_reliable asked s sw)
          ∙ read_upto-outgoing 16384 (record s { outgoing = s.outgoing ++ asked }))

module _ (codec : DirectoryCodec) (server : ServerCodec) where
  -- One turn of the server on a connection that brings exactly a query, with a reliable write.
  serve_read-answer :
      (ids : List Uuid) (node_id : Option Uuid) (g : Registry) (asked answer : List ℕ)
      → (t : TcpStream) → server.request_from_slice asked ≡ some (get_connected ids)
      → server.response_to_vec (peers (get_connected_peers ids g)) ≡ some answer
      → 0 < length asked
      → length asked ≤ 4096
      → t.writes ≡ []
      → t.arrivals ≡ []
      → t.incoming ≡ asked
      → (serve_read server node_id t g).1.outgoing ≡ t.outgoing ++ answer
  unfolding serve_read received_of handle_read write_each write_json
  serve_read-answer ids node_id g [] answer t reads tells some_byte short tw ta ti =
      absurd (omega arith)
  serve_read-answer ids node_id g (b ∷ bs) answer t reads tells some_byte short tw ta ti =
      let read = read_upto_all 4096 (b ∷ bs) t ta ti short in
      let written = write_all_reliable answer (record t { incoming = [] }) tw in
      rw (read, received_of, reads, handle_read, write_each, write_json, tells, written) refl

  -- The client's query reaches the server: one read of the server finds exactly the bytes that the
  -- client writes, and one read of the client exactly those that the server writes. If the first
  -- attempt connects, all writes succeed, the messages, of one to 4096 and of at most 16384 bytes,
  -- are read as what was meant, the client returns the peers that the registry selects for the ids.
  pub query-serve_read :
      (ids : List Uuid) (node_id : Option Uuid) (g : Registry) (asked answer : List ℕ)
      → (s t : TcpStream) (more : List (Option TcpStream)) (d : Dial)
      → codec.to_vec (get_connected ids) ≡ some asked
      → server.request_from_slice asked ≡ some (get_connected ids)
      → server.response_to_vec (peers (get_connected_peers ids g)) ≡ some answer
      → codec.from_slice answer ≡ some (peers (get_connected_peers ids g))
      → 0 < length asked
      → length asked ≤ 4096
      → length answer ≤ 16384
      → d.answers ≡ some s ∷ more
      → s.writes ≡ []
      → s.outgoing ≡ []
      → s.arrivals ≡ []
      → t.writes ≡ []
      → t.outgoing ≡ []
      → t.arrivals ≡ []
      → t.incoming ≡ (query_over codec ids s).1.outgoing
      → s.incoming ≡ (serve_read server node_id t g).1.outgoing
      → (get_connected_peers_from_server codec ids d).0 ≡ get_connected_peers ids g
  unfolding get_connected_peers_from_server query_over
  query-serve_read ids node_id g asked answer s t more d asks reads tells told some_byte short fits
        answered sw so sa tw to ta ti si =
      let came : t.incoming ≡ asked =
        ti ∙ query_over-outgoing codec ids asked s asks sw ∙ ap (λ bs. bs ++ asked) so in
      let back : s.incoming ≡ answer =
        si
        ∙ serve_read-answer ids node_id g asked answer t reads tells some_byte short tw ta came
        ∙ ap (λ bs. bs ++ answer) to in
      let connected = connect_first s more d answered in
      let sent = write_all_reliable asked s sw in
      let s1 = record s { outgoing = s.outgoing ++ asked } in
      let read = read_upto_all 16384 answer s1 sa back fits in
      rw (get_connected_peers_from_server, connected, query_over, asks, sent, read, told) refl
