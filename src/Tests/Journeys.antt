-- ===== src/Tests/Journeys.antt =====
-- A bundle from alice over bob to carol, and its acknowledgement back to alice.
use mathlib.Core.List.{Mem}
use mathlib.Core.Path.{subst}
use rusty_bundle.Prelude.{
  [], ◌∷◌, some, true, false, ◌≡◌, refl, sym, ap, ◌∙◌, arith, filter_map, any,
}
use rusty_bundle.Model.{Uuid, is_expired, delivered, PlainNode}
use rusty_bundle.Model.Ack.{new_ack}
use rusty_bundle.Disk.{stored, parse_bundles}
use rusty_bundle.Storage.{has_id, is_ack_for}
use rusty_bundle.Storage.Contents.{save, add}
use rusty_bundle.BundleManager.Contents as Lists
use rusty_bundle.Protobuf.RoundTrip.{from_proto-to_proto}
use rusty_bundle.Registry.{PeerRecord, connected}
use rusty_bundle.Engine.{State, address_of}
use rusty_bundle.Engine.Route.{route_bundle}
use rusty_bundle.Engine.Recipients.{reachable}
use rusty_bundle.Engine.Branches.{engine_holds}
use rusty_bundle.Client.{Moment}
use rusty_bundle.Client.Arrivals.{arrive}
use rusty_bundle.Journey.Conditions.{sent, Lacks, CanRelay, CanDeliver}
use rusty_bundle.Journey.{journey}
use rusty_bundle.Samples.{
  Json, json, json_laws, clock_at, alice, bob, carol, hello, brief, formats, format_laws, codec,
}
use rusty_bundle.Tests.Routing.{at_node, times}

abbrev connected_as : PlainNode → PeerRecord
connected_as n = record { node = n; status = connected }

-- A node to which the server returns one peer, whose summary vector is empty.
abbrev beside : State Json → PlainNode → State Json
beside st n = record st {
  net = record {
    directories = (connected_as n ∷ []) ∷ [];
    asked = [];
    vectors = some [] ∷ [];
    sendings = true ∷ [];
    log = [];
  };
}

abbrev from_alice : State Json
from_alice = beside (at_node 1 (brief ∷ []) []) bob

abbrev over_bob : State Json
over_bob = beside (at_node 2 [] []) carol

abbrev at_carol : State Json
at_carol = beside (at_node 3 [] []) alice

-- Alice, who still holds the bundle.
abbrev back_at_alice : State Json
back_at_alice = beside (at_node 1 (hello ∷ []) []) bob

abbrev moment : Moment
moment = record { times = times 101; fresh = 30; has_runtime = true }

sent-hello : sent formats hello ≡ hello
sent-hello = from_proto-to_proto formats format_laws hello (omega arith) (omega arith)

only_peer-Lacks :
    (id : Uuid) (p : PeerRecord) (st : State Json)
    → reachable st ≡ p ∷ []
    → st.net.vectors ≡ some [] ∷ []
    → Lacks id p st
only_peer-Lacks id p st near answers = record {
  before = [];
  after = [];
  vectors_before = [];
  vector = some [];
  vectors_after = [];
  near = near;
  answers = answers;
  place = refl;
  unknown = refl;
}

from_alice-CanRelay : CanRelay json (times 101) hello (connected_as bob) from_alice
unfolding stored parse_bundles filter_map is_expired
from_alice-CanRelay = record {
  reliable = refl;
  unexpired = refl;
  elsewhere = refl;
  waits = refl;
  admitted = refl;
  lacks = only_peer-Lacks _ _ _ refl refl;
}

over_bob-CanRelay : CanRelay json (times 101) hello (connected_as carol) over_bob
unfolding stored parse_bundles filter_map is_expired
over_bob-CanRelay = record {
  reliable = refl;
  unexpired = refl;
  elsewhere = refl;
  waits = refl;
  admitted = refl;
  lacks = only_peer-Lacks _ _ _ refl refl;
}

at_carol-CanDeliver : CanDeliver json (times 101) 30 hello (connected_as alice) at_carol
unfolding Lists.upsert save add stored parse_bundles filter_map is_expired
at_carol-CanDeliver = record {
  reliable = refl;
  unexpired = refl;
  here = refl;
  new = refl;
  room = refl;
  lacks = only_peer-Lacks _ _ _ refl refl;
}

new_at : any (has_id 10) (engine_holds json over_bob) ≡ false
unfolding stored parse_bundles filter_map
new_at = refl

new_at_carol : any (has_id 10) (engine_holds json at_carol) ≡ false
unfolding stored parse_bundles filter_map
new_at_carol = refl

ack_new_at_alice : any (has_id 30) (engine_holds json back_at_alice) ≡ false
unfolding stored parse_bundles filter_map
ack_new_at_alice = refl

journey_example :
    let b1 = sent formats hello in
    let b2 = sent formats b1 in
    let a = new_ack (clock_at 101) 30 (record b2 { shipment_status = delivered }) in
    let at_end = arrive json formats codec moment b2 at_carol in
    Mem
      (hello, address_of (connected_as bob))
      (route_bundle json (times 101) 31 hello from_alice).1.net.log
    × Mem
        (b1, address_of (connected_as carol))
        (arrive json formats codec moment b1 over_bob).net.log
    × (any (is_ack_for 10) (engine_holds json at_end) ≡ true)
    × Mem (a, address_of (connected_as alice)) at_end.net.log
    × (any
          (has_id 10)
          (engine_holds json (arrive json formats codec moment (sent formats a) back_at_alice))
        ≡ false)
journey_example =
    journey json json_laws formats format_laws codec hello (times 101) 31 moment moment moment
      (connected_as bob) (connected_as carol) (connected_as alice) from_alice over_bob at_carol
      back_at_alice refl (omega arith) (omega arith) from_alice-CanRelay
      (subst (λ b. CanRelay json (times 101) b (connected_as carol) over_bob) (sym sent-hello)
        over_bob-CanRelay)
      new_at
      (subst (λ b. CanDeliver json (times 101) 30 b (connected_as alice) at_carol)
        (sym (ap (sent formats) sent-hello ∙ sent-hello)) at_carol-CanDeliver)
      new_at_carol refl refl refl refl refl ack_new_at_alice (omega arith)
