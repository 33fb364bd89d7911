-- ===== src/Samples.antt =====
-- Concrete nodes, bundles, clocks and a JSON library that keeps what is written, for the tests.
use rusty_bundle.Prelude.{
  ℕ, zero, suc, ◌==◌, if◌then◌else◌, List, [], ◌∷◌, Option, none, some, ◌≡◌, refl, ap, String, map,
  ◌-◌,
}
use rusty_bundle.Prelude.Int.{ℤ, pos}
use rusty_bundle.Model.{
  Uuid, DateTime, PlainNode, Bundle, BundleKind, data_msg, ack, request_sv, summary_vector, pending,
  Clock,
}
use rusty_bundle.Disk.{Serde, SerdeLaws, Disk, Outcome}
use rusty_bundle.Storage.{Store}
use rusty_bundle.Protobuf.{Formats, to_proto}
use rusty_bundle.Protobuf.RoundTrip.{FormatLaws}
use rusty_bundle.Stream.{TcpStream}
use rusty_bundle.Client.{Codec}

-- JSON as far as bundles.json uses it.
pub data Json : Type 0 where
  bundle_value : Bundle → Json
  nil : Json
  cons : Json → Json → Json

abbrev pub array : List Json → Json
array [] = nil
array (v ∷ vs) = cons v (array vs)

abbrev cons_elements : Json → Option (List Json) → Option (List Json)
cons_elements v none = none
cons_elements v (some vs) = some (v ∷ vs)

abbrev pub elements : Json → Option (List Json)
elements nil = some []
elements (cons v w) = cons_elements v (elements w)
elements (bundle_value b) = none

abbrev pub as_bundle : Json → Option Bundle
as_bundle (bundle_value b) = some b
as_bundle nil = none
as_bundle (cons v w) = none

abbrev pub json : Serde
json = record {
  Value = Json;
  Text = Json;
  to_value = λ b. some (bundle_value b);
  from_value = as_bundle;
  json_bundles = array;
  bundles_array = elements;
  to_string_pretty = λ v. v;
  from_str = λ t. some t;
}

elements-array : (vs : List Json) → elements (array vs) ≡ some vs
elements-array [] = refl
elements-array (v ∷ vs) = ap (cons_elements v) (elements-array vs)

pub json_laws : SerdeLaws json
json_laws = record {
  from_str-to_string_pretty = λ v. refl;
  bundles_array-json_bundles = elements-array;
  from_value-to_value = λ b. (bundle_value b, refl, refl);
}

abbrev pub at : ℕ → DateTime
at n = record { seconds = pos n; nanos = 0 }

-- Whole seconds from the second instant to the first, where it is not before it.
abbrev elapsed : ℤ → ℤ → ℤ
elapsed (pos m) (pos n) = pos (m - n)
elapsed _ _ = pos 0

abbrev pub clock_at : ℕ → Clock
clock_at n = record { now = at n; num_seconds = λ t u. elapsed t.seconds u.seconds }

abbrev pub node : Uuid → String → ℕ → List Uuid → PlainNode
node id name port peers = record {
  id = id;
  name = name;
  address = "127.0.0.1";
  port = port;
  peers = peers;
  routing_engine = none;
}

abbrev pub alice : PlainNode
alice = node 1 "alice" 9001 (2 ∷ [])

abbrev pub bob : PlainNode
bob = node 2 "bob" 9002 (3 ∷ [])

abbrev pub carol : PlainNode
carol = node 3 "carol" 9003 []

-- A bundle from alice to carol, made at second 100.
abbrev pub bundle_of : Uuid → BundleKind → ℕ → Bundle
bundle_of id kind ttl = record {
  id = id;
  source = alice;
  destination = carol;
  timestamp = at 100;
  ttl = ttl;
  kind = kind;
  shipment_status = pending;
}

abbrev pub hello : Bundle
hello = bundle_of 10 (data_msg "hello") 60

abbrev pub brief : Bundle
brief = bundle_of 11 (data_msg "brief") 5

abbrev pub hello_ack : Bundle
hello_ack = bundle_of 20 (ack 10) 60

abbrev pub disk_of : List Bundle → List (Outcome Json) → Disk Json
disk_of bundles outcomes = record {
  file = some (array (map bundle_value bundles));
  tmp = none;
  outcomes = outcomes;
}

-- A store of three places with an empty cache.
abbrev pub store_of : List Bundle → List (Outcome Json) → Store Json
store_of bundles outcomes = record {
  layer = record { storage_dir = "bundles/bob"; bundles = []; capacity = 3 };
  disk = disk_of bundles outcomes;
}

-- Ids as texts of that many letters.
abbrev repeat : ℕ → String
repeat zero = ""
repeat (suc n) = String.◌∷◌ "u" (repeat n)

abbrev count : String → ℕ
count String.[] = 0
count (String.◌∷◌ c s) = suc (count s)

abbrev pub formats : Formats
formats = record {
  uuid_to_string = repeat;
  parse_str = λ s. some (count s);
  nil_uuid = 0;
  join = λ ss. "";
  timestamp = λ t. t.seconds;
  from_timestamp = λ n. some (record { seconds = n; nanos = 0 });
  epoch = at 0;
}

count-repeat : (n : ℕ) → count (repeat n) ≡ n
count-repeat zero = refl
count-repeat (suc n) = ap suc (count-repeat n)

pub format_laws : FormatLaws formats
format_laws = record {
  parse_str-to_string = λ u. ap some (count-repeat u);
  from_timestamp-timestamp = λ t. refl;
}

abbrev encode : BundleKind → Option (List ℕ)
encode (request_sv from) = some (123 ∷ 1 ∷ from ∷ [])
encode (summary_vector ids) = some (123 ∷ 2 ∷ ids)
encode (data_msg m) = none
encode (ack i) = none

abbrev decode : List ℕ → Option BundleKind
decode (brace ∷ tag ∷ from ∷ ids) =
    if tag == 1 then some (request_sv from) else some (summary_vector (from ∷ ids))
decode _ = none

-- Control messages as their first byte, a tag and their ids; every payload is the message `hello`.
abbrev pub codec : Codec
codec = record {
  to_vec = λ k. encode k;
  from_slice = λ bs. decode bs;
  write_to_bytes = λ p. some (0 ∷ 7 ∷ []);
  parse_from_bytes = λ bs. some (to_proto formats hello);
}

-- A stream on which the bytes come and every write succeeds.
abbrev pub stream_of : List ℕ → TcpStream
stream_of incoming = record { incoming = incoming; arrivals = []; writes = []; outgoing = [] }
