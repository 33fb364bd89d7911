-- ===== src/Engine/Sending.antt =====
-- What `route_bundle` (src/routing/engine.rs) sends, and when it sends nothing.
use mathlib.Core.List.{Mem, Mem-prop, mem-cons, mem-cons_self, mem-cons_of_mem}
use mathlib.Core.Logic.Or
use mathlib.Core.Path.{subst}
use rusty_bundle.Prelude.{
  List, [], ◌∷◌, Bool, true, false, not, ◌≡◌, refl, ◌∙◌, arith, if◌then◌else◌, contains,
}
use rusty_bundle.Model.{Uuid, Bundle}
use rusty_bundle.Registry.{PeerRecord}
use rusty_bundle.Engine.{
  Destination, Net, anti_entropy, get_peer_summary_vector, address_of, peers_needing, send_to_each,
  send_bundle, send_all, forward_to_each,
}

-- The log grew by calls to the addresses of `ps`.
pub data Grew (ps : List PeerRecord) (old : List (Bundle × Destination))
    : List (Bundle × Destination) → Type 0 where
  same : Grew ps old old
  sent :
      {log : List (Bundle × Destination)} (b : Bundle) (p : PeerRecord)
      → Mem p ps
      → Grew ps old log
      → Grew ps old ((b, address_of p) ∷ log)

pub Grew-trans :
    {ps : List PeerRecord} {k l m : List (Bundle × Destination)}
    → Grew ps k l
    → Grew ps l m
    → Grew ps k m
Grew-trans g same = g
Grew-trans g (sent b p i h) = sent b p i (Grew-trans g h)

pub log-vector : (n : Net) → (get_peer_summary_vector n).1.log ≡ n.log
unfolding get_peer_summary_vector
log-vector n = ground arith

pub log-send :
    (b : Bundle) (to : Destination) (n : Net) → (send_bundle b to n).1.log ≡ (b, to) ∷ n.log
log-send b to n = ground arith

pub log-peers_needing :
    (id : Uuid) (ps : List PeerRecord) (n : Net) → (peers_needing id ps n).1.log ≡ n.log
unfolding peers_needing
log-peers_needing id [] n = refl
log-peers_needing id (p ∷ ps) n =
    log-peers_needing id ps (get_peer_summary_vector n).1 ∙ log-vector n

mem_if :
    (t : Bool) (p q : PeerRecord) (rest : List PeerRecord)
    → Mem p (if t then q ∷ rest else rest)
    → Mem p (q ∷ rest)
mem_if true p q rest h = h
mem_if false p q rest h = mem-cons_of_mem q h

-- Those that are asked and lack the bundle are among those that are asked.
pub mem-peers_needing :
    (id : Uuid) (ps : List PeerRecord) (n : Net) (p : PeerRecord)
    → Mem p (peers_needing id ps n).0
    → Mem p ps
unfolding peers_needing
mem-peers_needing id [] n p h = h
mem-peers_needing id (q ∷ ps) n p h =
    let (peer_sv, n1) = get_peer_summary_vector n in
    let rest = (peers_needing id ps n1).0 in
    Or.elim Mem-prop (mem-cons.0 (mem_if (not (contains peer_sv id)) p q rest h))
      (λ e. rw e mem-cons_self) (λ i. mem-cons_of_mem q (mem-peers_needing id ps n1 p i))

pub Grew-send_to_each :
    (all : List PeerRecord) (b : Bundle) (ps : List PeerRecord) (n : Net)
    → ((p : PeerRecord) → Mem p ps → Mem p all)
    → Grew all n.log (send_to_each b ps n).1.log
unfolding send_to_each
Grew-send_to_each all b [] n i = same
Grew-send_to_each all b (p ∷ ps) n i =
    let n1 = (send_bundle b (address_of p) n).1 in
    let g = Grew-send_to_each all b ps n1 (λ q h. i q (mem-cons_of_mem _ h)) in
    Grew-trans (rw (log-send b (address_of p) n) (sent b p (i p mem-cons_self) same)) g

pub Grew-send_all :
    (all : List PeerRecord) (bs : List Bundle) (p : PeerRecord) (n : Net)
    → Mem p all
    → Grew all n.log (send_all bs (address_of p) n).log
unfolding send_all
Grew-send_all all [] p n i = same
Grew-send_all all (b ∷ bs) p n i =
    let n1 = (send_bundle b (address_of p) n).1 in
    Grew-trans (rw (log-send b (address_of p) n) (sent b p i same)) (Grew-send_all all bs p n1 i)

pub Grew-forward_to_each :
    (all : List PeerRecord) (bs : List Bundle) (ps : List PeerRecord) (n : Net)
    → ((p : PeerRecord) → Mem p ps → Mem p all)
    → Grew all n.log (forward_to_each bs ps n).1.log
unfolding forward_to_each
Grew-forward_to_each all bs [] n i = same
Grew-forward_to_each all bs (p ∷ ps) n i =
    let (peer_sv, n1) = get_peer_summary_vector n in
    let n2 = send_all (anti_entropy bs peer_sv) (address_of p) n1 in
    let g = Grew-send_all all (anti_entropy bs peer_sv) p n1 (i p mem-cons_self) in
    Grew-trans (subst (λ l. Grew all l n2.log) (log-vector n) g)
      (Grew-forward_to_each all bs ps n2 (λ q h. i q (mem-cons_of_mem _ h)))
