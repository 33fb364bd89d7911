-- ===== src/Model/Expiry.antt =====
-- When `Bundle::is_expired` (src/routing/model.rs) holds.
use rusty_bundle.Prelude.{ℕ, ◌<◌, ◌≤◌, ◌^◌, ◌≡◌, true, ◌⊎◌, ◌↔◌, arith}
use rusty_bundle.Prelude.Int.{pos}
use rusty_bundle.Model.{Bundle, Clock, is_expired}

-- For a bundle whose age is n whole seconds and whose ttl fits a u64: it counts as expired exactly
-- if its ttl is below n, or its ttl is 2^63 or more (`ttl as i64` is then negative).
pub is_expired_iff :
    (c : Clock) (b : Bundle) (n : ℕ)
    → b.ttl < 2 ^ 64
    → c.num_seconds c.now b.timestamp ≡ pos n
    → (is_expired c b ≡ true) ↔ ((b.ttl < n) ⊎ (2 ^ 63 ≤ b.ttl))
unfolding is_expired
is_expired_iff c b n h e = ground arith
