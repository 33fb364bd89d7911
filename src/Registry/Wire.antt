-- ===== src/Registry/Wire.antt =====
-- The messages of `handle_client` (src/network/server.rs) as bytes on a connection.
use rusty_bundle.Prelude.{ℕ, String, List, [], ◌∷◌, Option, none, some, Bool, false}
use rusty_bundle.Model.{Uuid}
use rusty_bundle.Stream.{TcpStream, read_upto, write_all}
use rusty_bundle.Registry.{
  Registry, ServerRequest, ServerResponse, Received, closed, invalid, request, Connection,
  handle_read,
}

-- What the server uses of serde_json: `from_slice` of a request, the text for bytes that are none,
-- and `to_vec` of a response.
pub record ServerCodec : Type 0 where
  pub request_from_slice : List ℕ → Option ServerRequest
  pub invalid_message : List ℕ → String
  pub response_to_vec : ServerResponse → Option (List ℕ)

module _ (codec : ServerCodec) where
  -- A read of no bytes is the end of the stream.
  unfoldable pub received_of : List ℕ → Received
  received_of [] = closed
  received_of (b ∷ bs) = elim (codec.request_from_slice (b ∷ bs)) [
    | none ↦ invalid (codec.invalid_message (b ∷ bs))
    | some r ↦ request r
  ]

  unfoldable pub write_json : ServerResponse → TcpStream → Bool × TcpStream
  write_json response s = elim (codec.response_to_vec response) [
    | none ↦ (false, s)
    | some body ↦ write_all body s
  ]

  -- The results of the writes are not looked at.
  unfoldable pub write_each : List ServerResponse → TcpStream → TcpStream
  write_each [] s = s
  write_each (r ∷ rs) s = write_each rs (write_json r s).1

  -- One turn of the loop, with the connection's bytes.
  unfoldable pub serve_read : Option Uuid → TcpStream → Registry → Connection × TcpStream × Registry
  serve_read node_id s g =
      let (buffer, s1) = read_upto 4096 s in
      let (connection, responses, g1) = handle_read node_id (received_of buffer) g in
      (connection, write_each responses s1, g1)
