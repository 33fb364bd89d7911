-- ===== src/Tests/Routing.antt =====
-- Nodes that route: src/routing/engine.rs at work.
use rusty_bundle.Prelude.{
  ℕ, List, [], ◌∷◌, none, some, true, false, ◌≡◌, refl, arith, filter_map, any, contains, not, ◌||◌,
  ◌==◌,
}
use rusty_bundle.Model.{Uuid, Bundle, in_transit, delivered, expired, is_expired, is_ack, PlainNode}
use rusty_bundle.Disk.{stored, parse_bundles, Outcome, done, fails}
use rusty_bundle.Storage.{is_ack_for}
use rusty_bundle.Storage.Contents.{without, save, add}
use rusty_bundle.BundleManager.Contents as Lists
use rusty_bundle.Registry.{PeerRecord, connected, new_server}
use rusty_bundle.Engine.Carrying.{route_bundle-carries}
use rusty_bundle.Engine.Marking.{route_bundle_marks_unsent}
use rusty_bundle.Engine.Asking.{forced, route_bundle-asks}
use rusty_bundle.Engine.Identity.{route_bundle-SameNode}
use rusty_bundle.Engine.Recipients.{reachable}
use rusty_bundle.Engine.Route.{with_net}
use rusty_bundle.Storage.Contents.{admits, live}
use rusty_bundle.Engine.Retrying.{retry_unsynced_bundles-hands, retry_unsynced_bundles-unsent}
use mathlib.Core.List.{Mem, mem-cons_self}
use rusty_bundle.Engine.{address_of, State, Net, Times}
use rusty_bundle.Engine.Route.{route_bundle, deliver, retry_unsynced_bundles}
use rusty_bundle.Engine.Sending.{Grew}
use rusty_bundle.Engine.Recipients.{Grew-route_bundle}
use rusty_bundle.Engine.Branches.{engine_holds, is_known, route_expired, route_known_ack}
use rusty_bundle.Engine.Delivery.{deliver_acknowledges}
use rusty_bundle.Engine.Invariant.{StateIsKept, route_bundle-IsKept}
use rusty_bundle.Samples.{
  Json, json, json_laws, clock_at, alice, bob, hello, brief, hello_ack, store_of,
}

abbrev peer : PlainNode → PeerRecord
peer n = record { node = n; status = connected }

-- Alice and bob are connected; a peer answers with an empty vector, and no send succeeds.
abbrev pub net : Net
net = record {
  directories = (peer alice ∷ peer bob ∷ []) ∷ [];
  asked = [];
  vectors = some [] ∷ [];
  sendings = [];
  log = [];
}

abbrev pub at_node : Uuid → List Bundle → List (Outcome Json) → State Json
at_node id bundles outcomes = record {
  engine = record {
    node_id = id;
    peers = 1 ∷ [];
    registry_address = "127.0.0.1:9100";
    server = new_server;
    bundle_manager = record { node_id = id; storage = store_of bundles outcomes };
  };
  net = net;
}

abbrev pub times : ℕ → Times
times n = record {
  tested = clock_at n;
  stored = clock_at n;
  acked = clock_at n;
  marked = clock_at n;
}

-- Bob, with the second access of its file system failing.
abbrev pub bob_state : State Json
bob_state = at_node 2 (brief ∷ []) (done ∷ fails none "interrupted" ∷ [])

pub bob_state-IsKept : StateIsKept json bob_state
unfolding stored parse_bundles filter_map
bob_state-IsKept = record { unique = (refl, tt); bounded = omega arith }

route_bundle-IsKept_example : StateIsKept json (route_bundle json (times 101) 30 hello bob_state).1
route_bundle-IsKept_example =
    route_bundle-IsKept json json_laws (times 101) 30 hello bob_state bob_state-IsKept

Grew-route_bundle_example :
    Grew (peer alice ∷ []) [] (route_bundle json (times 101) 30 hello bob_state).1.net.log
Grew-route_bundle_example = Grew-route_bundle json (times 101) 30 hello bob_state

-- Carol is the destination of `hello`.
abbrev carol_state : State Json
carol_state = at_node 3 [] []

deliver_acknowledges_example :
    let (b', st') = deliver json (times 101) 30 hello (peer alice ∷ []) carol_state in
    (any (is_ack_for 10) (engine_holds json st') ≡ true)
    × (b' ≡ record hello { shipment_status = delivered })
unfolding Lists.upsert save add stored parse_bundles filter_map is_expired
deliver_acknowledges_example =
    deliver_acknowledges json json_laws (times 101) 30 hello (peer alice ∷ []) carol_state refl
      (refl, refl)

abbrev bob_acked : State Json
bob_acked = at_node 2 (hello_ack ∷ []) []

hello_ack-is_known : is_known 10 hello_ack (engine_holds json bob_acked) ≡ true
unfolding stored parse_bundles filter_map
hello_ack-is_known = refl

route_known_ack_example : (route_bundle json (times 101) 30 hello_ack bob_acked).1.net.log ≡ []
route_known_ack_example =
    route_known_ack json json_laws (times 101) 30 hello_ack bob_acked refl 10 refl
      hello_ack-is_known

brief-is_expired : is_expired (clock_at 110) brief ≡ true
unfolding is_expired
brief-is_expired = refl

abbrev bob_brief : State Json
bob_brief = at_node 2 (brief ∷ []) []

route_expired_example :
    let (b', st') = route_bundle json (times 110) 30 brief bob_brief in
    (b' ≡ record brief { shipment_status = expired })
    × (engine_holds json st' ≡ without 11 (engine_holds json bob_brief))
    × (st'.net ≡ net)
route_expired_example =
    route_expired json json_laws (times 110) 30 brief bob_brief refl refl brief-is_expired

-- Bob holds `brief`, which alice lacks.
brief_held : Mem brief (engine_holds json bob_brief)
unfolding stored parse_bundles filter_map
brief_held = mem-cons_self

retry_unsynced_bundles-hands_example :
    Mem
      (brief, address_of (peer alice))
      (retry_unsynced_bundles json (clock_at 101) bob_brief).net.log
retry_unsynced_bundles-hands_example =
    retry_unsynced_bundles-hands json json_laws (clock_at 101) bob_brief refl [] [] (peer alice) []
      [] (some []) brief brief_held refl refl refl refl refl

retry_unsynced_bundles-unsent_example :
    engine_holds json (retry_unsynced_bundles json (clock_at 101) bob_brief)
    ≡ engine_holds json bob_brief
retry_unsynced_bundles-unsent_example =
    retry_unsynced_bundles-unsent json json_laws (clock_at 101) bob_brief refl refl

-- No peer is connected when bob routes `hello`; alice is, later.
abbrev bob_alone : State Json
bob_alone = record bob_brief { net = record net { directories = [] } }

hello_admitted : admits 3 hello (live (clock_at 101) (engine_holds json bob_alone)) ≡ true
unfolding stored parse_bundles filter_map is_expired
hello_admitted = refl

hello_lives : is_expired (clock_at 101) hello ≡ false
unfolding is_expired
hello_lives = refl

only_alice :
    reachable (with_net json (route_bundle json (times 101) 30 hello bob_alone).1 net)
    ≡ peer alice ∷ []
only_alice = rw (route_bundle-SameNode json (times 101) 30 hello bob_alone).same_id refl

route_bundle-carries_example :
    let (b', st') = route_bundle json (times 101) 30 hello bob_alone in
    Mem b' (engine_holds json st')
    × Mem
        (b', address_of (peer alice))
        (retry_unsynced_bundles json (clock_at 103) (with_net json st' net)).net.log
route_bundle-carries_example =
    route_bundle-carries json json_laws (times 101) 30 hello bob_alone refl (clock_at 103) net [] []
      (peer alice) [] [] (some []) refl hello_lives refl refl hello_admitted only_alice refl refl
      refl

-- Alice lacks `hello`, and no send succeeds.
route_bundle_marks_unsent_example :
    let (b', st') = route_bundle json (times 101) 30 hello bob_brief in
    (b' ≡ record hello { shipment_status = in_transit })
    × Mem (record hello { shipment_status = in_transit }) (engine_holds json st')
route_bundle_marks_unsent_example =
    route_bundle_marks_unsent json json_laws (times 101) 30 hello bob_brief refl [] [] (peer alice)
      [] [] (some []) refl hello_lives refl refl hello_admitted refl refl refl refl

hello_asks : (is_ack hello.kind || not (is_expired (clock_at 101) hello)) ≡ true
unfolding is_expired
hello_asks = refl

route_bundle-asks_example :
    (ids : List Uuid) × ((route_bundle json (times 101) 30 hello bob_brief).1.net.asked ≡ ids ∷ [])
    × ((x : Uuid) → contains ids x ≡ (contains (1 ∷ []) x || (forced json hello == x)))
route_bundle-asks_example = route_bundle-asks json (times 101) 30 hello bob_brief hello_asks
