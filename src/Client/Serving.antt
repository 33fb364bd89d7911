-- ===== src/Client/Serving.antt =====
-- What `handle_peer_to_peer` (src/network/client.rs) does to the node's file.
use rusty_bundle.Prelude.{ℕ, zero, suc, Option, none, some, Bool-cases, inl, inr}
use rusty_bundle.Disk.{Serde, SerdeLaws}
use rusty_bundle.Stream.{TcpStream}
use rusty_bundle.Protobuf.{Formats}
use rusty_bundle.Engine.{State}
use rusty_bundle.Storage.Invariant.{IsKept}
use rusty_bundle.Storage.Stable.{IsKept-IsStable}
use rusty_bundle.Engine.Invariant.{StateIsKept}
use rusty_bundle.Client.Stable.{peer_turn-IsStable}
use rusty_bundle.Client.{Codec, Moment, peer_turn, handle_peer_to_peer}

-- The node's file is well formed at the end of the loop, if it ends.
abbrev pub EndIsKept : (j : Serde) → Option (TcpStream × State j.Text) → Type 0
EndIsKept j none = Unit
EndIsKept j (some (s, st)) = StateIsKept j st

module _ (j : Serde) (laws : SerdeLaws j) (f : Formats) (codec : Codec) where
  -- Whatever a peer sends, and whichever accesses of the file system fail: serving the peer to the
  -- end keeps the node's file well formed, with no id twice and no more bundles than the capacity.
  pub handle_peer_to_peer-IsKept :
      (fuel : ℕ) (moments : ℕ → Moment) (n : ℕ) (s : TcpStream) (st : State j.Text)
      → StateIsKept j st
      → EndIsKept j (handle_peer_to_peer j f codec fuel moments n s st)
  unfolding handle_peer_to_peer
  handle_peer_to_peer-IsKept zero moments n s st w = tt
  handle_peer_to_peer-IsKept (suc fuel) moments n s st w =
      let (goes_on, s1, st1) = peer_turn j f codec (moments n) s st in
      let w1 =
        peer_turn-IsStable j (IsKept j) (IsKept-IsStable j laws) f codec (moments n) s st w in
      elim (Bool-cases goes_on) [
        | inl e ↦
            rw (handle_peer_to_peer, e) (handle_peer_to_peer-IsKept fuel moments (suc n) s1 st1 w1)
        | inr e ↦ rw (handle_peer_to_peer, e) w1
      ]
