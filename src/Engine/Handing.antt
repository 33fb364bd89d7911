-- ===== src/Engine/Handing.antt =====
-- What `route_bundle` (src/routing/engine.rs) is sure to hand to a peer.
use mathlib.Core.List.{Mem, Mem-prop, mem-cons, mem-cons_self, mem-cons_of_mem, not-mem-nil}
use mathlib.Core.Logic.Or
use rusty_bundle.Prelude.{
  List, [], ◌∷◌, ◌++◌, Option, Bool, Bool-cases, true, false, not, ◌≡◌, refl, ◌∙◌, arith, inl, inr,
  contains, retain, length, unwrap_or,
}
use rusty_bundle.Model.{Uuid, Bundle}
use rusty_bundle.Registry.{PeerRecord}
use rusty_bundle.Engine.{
  Destination, Net, anti_entropy, get_peer_summary_vector, address_of, peers_needing, send_to_each,
  send_bundle, send_all, forward_to_each, is_nil,
}
use rusty_bundle.Engine.AntiEntropy.{anti_entropy_lem}
use rusty_bundle.Engine.Sending.{
  Grew, same, sent, Grew-send_to_each, Grew-forward_to_each, Grew-send_all, log-send,
}

-- What was handed over stays in the log.
mem-Grew :
    {ps : List PeerRecord} {l m : List (Bundle × Destination)} (x : Bundle × Destination)
    → Mem x l
    → Grew ps l m
    → Mem x m
mem-Grew x h same = h
mem-Grew x h (sent b p i g) = mem-cons_of_mem _ (mem-Grew x h g)

pub mem-retain :
    {A : Type 0} (q : A → Bool) (xs : List A) (x : A) → q x ≡ true → Mem x xs → Mem x (retain q xs)
mem-retain q [] x h m = m
mem-retain q (y ∷ ys) x h m =
    Or.elim Mem-prop (mem-cons.0 m) (λ e. rw (← e) (rw h mem-cons_self))
      (λ i. elim (Bool-cases (q y)) [
        | inl t ↦ rw t (mem-cons_of_mem y (mem-retain q ys x h i))
        | inr f ↦ rw f (mem-retain q ys x h i)
      ])

mem-anti_entropy :
    (sv : List Uuid) (bs : List Bundle) (b : Bundle)
    → contains sv b.id ≡ false
    → Mem b bs
    → Mem b (anti_entropy bs sv)
mem-anti_entropy sv bs b lacks m =
    rw (anti_entropy_lem bs sv) (mem-retain (λ x. not (contains sv x.id)) bs b (rw lacks refl) m)

vectors-send_all :
    (bs : List Bundle) (to : Destination) (n : Net) → (send_all bs to n).vectors ≡ n.vectors
unfolding send_all
vectors-send_all [] to n = refl
vectors-send_all (b ∷ bs) to n = vectors-send_all bs to (send_bundle b to n).1 ∙ ground arith

mem-send_all :
    (b : Bundle) (bs : List Bundle) (p : PeerRecord) (n : Net)
    → Mem b bs
    → Mem (b, address_of p) (send_all bs (address_of p) n).log
unfolding send_all
mem-send_all b [] p n m = absurd (not-mem-nil m)
mem-send_all b (c ∷ bs) p n m =
    let n1 = (send_bundle c (address_of p) n).1 in
    Or.elim Mem-prop (mem-cons.0 m)
      (λ e.
        mem-Grew (b, address_of p) (rw (log-send c (address_of p) n) (rw e mem-cons_self))
          (Grew-send_all (p ∷ []) bs p n1 mem-cons_self))
      (λ i. mem-send_all b bs p n1 i)

-- The next peer answers with a vector, or not.
vector_next :
    (n : Net) (v : Option (List Uuid)) (rest : List (Option (List Uuid)))
    → n.vectors ≡ v ∷ rest
    → ((get_peer_summary_vector n).0 ≡ unwrap_or v [])
      × ((get_peer_summary_vector n).1.vectors ≡ rest)
unfolding get_peer_summary_vector
vector_next n v rest e = ground arith

-- The peer that answers after those before it have is handed each bundle that its vector lacks.
pub mem-forward_to_each :
    (before after : List PeerRecord) (p : PeerRecord) (vs rest : List (Option (List Uuid)))
    → (v : Option (List Uuid)) (bs : List Bundle) (b : Bundle) (n : Net)
    → n.vectors ≡ vs ++ v ∷ rest
    → length before ≡ length vs
    → contains (unwrap_or v []) b.id ≡ false
    → Mem b bs
    → Mem (b, address_of p) (forward_to_each bs (before ++ p ∷ after) n).1.log
unfolding forward_to_each
mem-forward_to_each [] after p [] rest v bs b n e k lacks m =
    let n1 = (get_peer_summary_vector n).1 in
    let (ev, er) = vector_next n v rest e in
    let missing : Mem b (anti_entropy bs (get_peer_summary_vector n).0) =
      mem-anti_entropy (get_peer_summary_vector n).0 bs b (rw ev lacks) m in
    mem-Grew (b, address_of p) (mem-send_all b _ p n1 missing)
      (Grew-forward_to_each after bs after
        (send_all (anti_entropy bs (get_peer_summary_vector n).0) (address_of p) n1) (λ q h. h))
mem-forward_to_each [] after p (w ∷ vs) rest v bs b n e k lacks m = absurd (omega arith)
mem-forward_to_each (q ∷ before) after p [] rest v bs b n e k lacks m = absurd (omega arith)
mem-forward_to_each (q ∷ before) after p (w ∷ vs) rest v bs b n e k lacks m =
    let (peer_sv, n1) = get_peer_summary_vector n in
    let (ev, er) = vector_next n w (vs ++ v ∷ rest) e in
    let forwarded = anti_entropy bs peer_sv in
    mem-forward_to_each before after p vs rest v bs b (send_all forwarded (address_of q) n1)
      (vectors-send_all forwarded (address_of q) n1 ∙ er) (omega (arith, k)) lacks m

not_nil : (bs : List Bundle) (b : Bundle) → Mem b bs → is_nil bs ≡ false
not_nil [] b m = absurd (not-mem-nil m)
not_nil (c ∷ bs) b m = refl

-- If one peer's vector lacks one of the bundles, the loop has sent something.
pub forward_to_each-sends :
    (before after : List PeerRecord) (p : PeerRecord) (vs rest : List (Option (List Uuid)))
    → (v : Option (List Uuid)) (bs : List Bundle) (b : Bundle) (n : Net)
    → n.vectors ≡ vs ++ v ∷ rest
    → length before ≡ length vs
    → contains (unwrap_or v []) b.id ≡ false
    → Mem b bs
    → (forward_to_each bs (before ++ p ∷ after) n).0 ≡ true
unfolding forward_to_each
forward_to_each-sends [] after p [] rest v bs b n e k lacks m =
    let (ev, er) = vector_next n v rest e in
    let some_missing : is_nil (anti_entropy bs (get_peer_summary_vector n).0) ≡ false =
      not_nil _ b (mem-anti_entropy (get_peer_summary_vector n).0 bs b (rw ev lacks) m) in
    rw some_missing refl
forward_to_each-sends [] after p (w ∷ vs) rest v bs b n e k lacks m = absurd (omega arith)
forward_to_each-sends (q ∷ before) after p [] rest v bs b n e k lacks m = absurd (omega arith)
forward_to_each-sends (q ∷ before) after p (w ∷ vs) rest v bs b n e k lacks m =
    let (peer_sv, n1) = get_peer_summary_vector n in
    let (ev, er) = vector_next n w (vs ++ v ∷ rest) e in
    let forwarded = anti_entropy bs peer_sv in
    let later =
      forward_to_each-sends before after p vs rest v bs b (send_all forwarded (address_of q) n1)
        (vectors-send_all forwarded (address_of q) n1 ∙ er) (omega (arith, k)) lacks m in
    ground arith

-- The peer that answers after those before it have needs what its vector lacks.
pub mem-peers_needing_of_lacks :
    (before after : List PeerRecord) (p : PeerRecord) (vs rest : List (Option (List Uuid)))
    → (v : Option (List Uuid)) (id : Uuid) (n : Net) → n.vectors ≡ vs ++ v ∷ rest
    → length before ≡ length vs
    → contains (unwrap_or v []) id ≡ false
    → Mem p (peers_needing id (before ++ p ∷ after) n).0
unfolding peers_needing
mem-peers_needing_of_lacks [] after p [] rest v id n e k lacks =
    let (ev, er) = vector_next n v rest e in rw (ev, lacks) mem-cons_self
mem-peers_needing_of_lacks [] after p (w ∷ vs) rest v id n e k lacks = absurd (omega arith)
mem-peers_needing_of_lacks (q ∷ before) after p [] rest v id n e k lacks = absurd (omega arith)
mem-peers_needing_of_lacks (q ∷ before) after p (w ∷ vs) rest v id n e k lacks =
    let (peer_sv, n1) = get_peer_summary_vector n in
    let (ev, er) = vector_next n w (vs ++ v ∷ rest) e in
    let found =
      mem-peers_needing_of_lacks before after p vs rest v id n1 er (omega (arith, k)) lacks in
    elim (Bool-cases (not (contains peer_sv id))) [
      | inl t ↦ rw t (mem-cons_of_mem q found)
      | inr f ↦ rw f found
    ]

pub mem-send_to_each :
    (b : Bundle) (ps : List PeerRecord) (p : PeerRecord) (n : Net)
    → Mem p ps
    → Mem (b, address_of p) (send_to_each b ps n).1.log
unfolding send_to_each
mem-send_to_each b [] p n m = absurd (not-mem-nil m)
mem-send_to_each b (q ∷ ps) p n m =
    let n1 = (send_bundle b (address_of q) n).1 in
    Or.elim Mem-prop (mem-cons.0 m)
      (λ e.
        mem-Grew (b, address_of p) (rw (log-send b (address_of q) n) (rw e mem-cons_self))
          (Grew-send_to_each ps b ps n1 (λ r h. h)))
      (λ i. mem-send_to_each b ps p n1 i)
