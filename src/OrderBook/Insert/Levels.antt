-- ===== src/OrderBook/Insert/Levels.antt =====
-- A side of the book as a map from prices to volumes, and what one message does to a level.
use crypto_crawler.Prelude.{
  ℕ, ◌-◌, ◌≡◌, ◌≢◌, Bool, true, false, Option, none, some, List, [], ◌∷◌, ltb, leb, ◌==◌,
  if◌then◌else◌,
}
use crypto_crawler.OrderBook.Search.{Deal}
use crypto_crawler.OrderBook.Search.Rank.{IsSorted}
use crypto_crawler.OrderBook.Insert.{Outcome, done, died, min_volume_order_book}

-- The volume that the side quotes at a price.
abbrev pub volume_at : List Deal → ℕ → Option ℕ
volume_at [] p = none
volume_at (x ∷ xs) p = if x.price == p then some x.volume else volume_at xs p

-- What an ask or a bid does to a price that is not quoted.
abbrev pub new_level : ℕ → Bool → Outcome (Option ℕ)
new_level v true = if leb v min_volume_order_book then done none else done (some v)
new_level v false = done none

-- What a new ask does to the volume at its price. A tiny volume removes the level, a set flag
-- replaces its volume, and a cleared flag takes a fill off it.
abbrev pub ask_level : Option ℕ → ℕ → Bool → Outcome (Option ℕ)
ask_level (some old) v overwrite =
    if leb v min_volume_order_book
    then done none
    else if overwrite
    then done (some v)
    else if ltb old v
    then died
    else done (some (old - v))
ask_level none v overwrite = new_level v overwrite

-- What a new bid does: on a level that is there the flag makes no difference.
abbrev pub bid_level : Option ℕ → ℕ → Bool → Outcome (Option ℕ)
bid_level (some old) v overwrite = if leb v min_volume_order_book then done none else done (some v)
bid_level none v overwrite = new_level v overwrite

-- The outcome on the side agrees with the outcome on the level: the new side is sorted, quotes the
-- new volume at the price of the message, and quotes at every other price what it did.
abbrev pub Refines :
    (ℕ → ℕ → Bool) → List Deal → ℕ → Outcome (Option ℕ) → Outcome (List Deal) → Type 0
Refines before side p (done level) (done side') =
    IsSorted before side'
    × (volume_at side' p ≡ level)
    × ((q : ℕ) → q ≢ p → volume_at side' q ≡ volume_at side q)
Refines before side p died died = Unit
Refines before side p _ _ = ⊥
