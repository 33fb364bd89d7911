-- ===== src/Engine/AntiEntropy.antt =====
-- `anti_entropy` of src/routing/engine.rs: what a peer lacks of this node's bundles.
use native.Mathlib.Decide.{ℕ_discrete}
use mathlib.Core.List.{append-nil, append_assoc}
use rusty_bundle.Prelude.{
  List, [], ◌∷◌, ◌++◌, not, ◌&&◌, ◌≡◌, refl, sym, ◌∙◌, ap, arith, any, contains, retain, Bool-cases,
  inl, inr,
}
use rusty_bundle.Model.{Uuid, Bundle}
use rusty_bundle.Storage.{has_id}
use rusty_bundle.Engine.{collect_missing, anti_entropy}

abbrev pub lacking : List Uuid → List Bundle → List Bundle
lacking peer_sv = retain (λ b. not (contains peer_sv b.id))

collect_missing_lem :
    (peer_sv : List Uuid) (acc l : List Bundle)
    → collect_missing peer_sv acc l ≡ acc ++ lacking peer_sv l
unfolding collect_missing
collect_missing_lem peer_sv acc [] = sym (append-nil acc)
collect_missing_lem peer_sv acc (b ∷ bs) = elim (Bool-cases (contains peer_sv b.id)) [
  | inl t ↦ rw t (collect_missing_lem peer_sv acc bs)
  | inr f ↦ rw f (
      collect_missing_lem peer_sv (acc ++ b ∷ []) bs
      ∙ append_assoc acc (b ∷ []) (lacking peer_sv bs))
]

pub anti_entropy_lem :
    (local_sv : List Bundle) (peer_sv : List Uuid)
    → anti_entropy local_sv peer_sv ≡ lacking peer_sv local_sv
unfolding anti_entropy
anti_entropy_lem local_sv peer_sv = collect_missing_lem peer_sv [] local_sv

any-lacking :
    (id : Uuid) (peer_sv : List Uuid) (l : List Bundle)
    → any (has_id id) (lacking peer_sv l) ≡ (any (has_id id) l && not (contains peer_sv id))
any-lacking id peer_sv [] = refl
any-lacking id peer_sv (b ∷ bs) = elim (ℕ_discrete b.id id) [
  | yes e ↦ ground (arith, any-lacking id peer_sv bs, ap (contains peer_sv) e)
  | no n ↦ ground (arith, any-lacking id peer_sv bs)
]

-- `anti_entropy` selects a bundle of an id exactly if this node has one of that id and the peer's
-- summary vector lacks the id.
pub any-anti_entropy :
    (id : Uuid) (local_sv : List Bundle) (peer_sv : List Uuid)
    → any (has_id id) (anti_entropy local_sv peer_sv)
      ≡ (any (has_id id) local_sv && not (contains peer_sv id))
any-anti_entropy id local_sv peer_sv = rw anti_entropy_lem (any-lacking id peer_sv local_sv)
