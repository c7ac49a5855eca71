-- ===== src/Arbitrage/Caps.antt =====
-- What the two caps make of a volume.
use crypto_crawler.Prelude.{ℕ, ◌≤◌, ◌<◌, ◌≡◌, ◌⊎◌, Option, none, some, arith}
use crypto_crawler.Listener.{MarketCap, no_max_cap_limit}
use crypto_crawler.Arbitrage.{capped_volume}

-- A refused volume was below the lower cap. An accepted one was not, is not raised, obeys the upper
-- cap if there is one, and is either the old volume or that cap.
abbrev pub Capped : MarketCap → ℕ → Option ℕ → Type 0
Capped deal_cap v none = v < deal_cap.min_volume_cap
Capped deal_cap v (some w) =
    (deal_cap.min_volume_cap ≤ v)
    × (w ≤ v)
    × ((deal_cap.max_volume_cap ≡ no_max_cap_limit) ⊎ (w ≤ deal_cap.max_volume_cap))
    × ((w ≡ v) ⊎ (w ≡ deal_cap.max_volume_cap))

-- The two caps refuse a volume exactly when it is below the lower one, and cut it to the upper one
-- where there is one.
pub capped_volume-Capped :
    (deal_cap : MarketCap) (v : ℕ) → Capped deal_cap v (capped_volume deal_cap v)
unfolding capped_volume
capped_volume-Capped deal_cap v = ground arith
