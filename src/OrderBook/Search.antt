-- ===== src/OrderBook/Search.antt =====
-- `Deal` (data/deal.py), the two orders of a book side (data/order_book.py) and `binary_search`
-- (analysis/binary_search.py). Prices and volumes are counts of 0.00000001.
pub mod Rank
use crypto_crawler.Prelude.{
  ℕ, zero, suc, ◌+◌, ◌-◌, ◌/◌, Bool, Option, none, some, List, [], ◌∷◌, ltb, ◌==◌, if◌then◌else◌,
  length, get_elem?, take, drop,
}

pub record Deal : Type 0 where
  pub price : ℕ
  pub volume : ℕ

-- `Deal.__eq__`: two deals of one class are equal when their prices are.
abbrev pub deal_eq : Deal → Deal → Bool
deal_eq a b = a.price == b.price

-- The methods below compare prices only; `before p q` is what they ask of two prices.
abbrev pub before_ask : ℕ → ℕ → Bool
before_ask p q = ltb p q

abbrev pub before_bid : ℕ → ℕ → Bool
before_bid p q = ltb q p

abbrev pub cmp_method_ask : Deal → Deal → Bool
cmp_method_ask a b = before_ask a.price b.price

abbrev pub cmp_method_bid : Deal → Deal → Bool
cmp_method_bid a b = before_bid a.price b.price

-- The body of `binary_search` on `some_list`; the fuel bounds the depth of its calls. The loop
-- `while min_idx < max_idx` returns in its first round. A probe of the middle always finds an
-- element, so the case `none` is never taken.
search : ℕ → (Deal → Deal → Bool) → List Deal → Deal → ℕ
search zero cmp_method xs target = 0
search (suc fuel) cmp_method [] target = 0
search (suc fuel) cmp_method (x ∷ []) target = if cmp_method x target then 1 else 0
search (suc fuel) cmp_method (x ∷ y ∷ rest) target =
    let xs : List Deal = x ∷ y ∷ rest in
    let mid_idx = (length xs - 1) / 2 in
    let above = mid_idx + 1 + search fuel cmp_method (drop (mid_idx + 1) xs) target in
    let below = search fuel cmp_method (take mid_idx xs) target in
    elim (get_elem? xs mid_idx) [
      | none ↦ 0
      | some d ↦ if deal_eq d target then mid_idx else if cmp_method d target then above else below
    ]

-- `binary_search(some_list, target, cmp_method)`: every call is on a shorter list, so the length of
-- the list is fuel enough.
unfoldable pub binary_search : (Deal → Deal → Bool) → List Deal → Deal → ℕ
unfolding search
binary_search cmp_method xs target = search (length xs) cmp_method xs target
