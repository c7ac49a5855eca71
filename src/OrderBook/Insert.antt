-- ===== src/OrderBook/Insert.antt =====
-- `insert_new_ask_preserve_order` and `insert_new_bid_preserve_order` (data/order_book.py).
pub mod Levels
pub mod Ladder
pub mod Edits
pub mod Refinement
use crypto_crawler.Prelude.{
  ℕ, ◌-◌, ◌≡◌, refl, Bool, true, false, not, ◌&&◌, none, some, List, ltb, leb, if◌then◌else◌,
  get_elem?, erase_idx, insert_idx, modify,
}
use crypto_crawler.OrderBook.Search.{Deal, deal_eq, cmp_method_ask, cmp_method_bid, binary_search}

-- How a call ends: with a value, in `die_hard`, which ends the process, or in an exception that is
-- raised before anything is assigned.
pub data Outcome {ℓ} (A : Type ℓ) : Type ℓ where
  done : A → Outcome A
  died : Outcome A
  raised : Outcome A

infixl 5 ◌>>=◌
abbrev pub ◌>>=◌ {ℓ κ} : {A : Type ℓ} {B : Type κ} → Outcome A → (A → Outcome B) → Outcome B
done a >>= f = f a
died >>= f = died
raised >>= f = raised

pub done-injective {ℓ} : {A : Type ℓ} (a b : A) → done a ≡ done b → a ≡ b
done-injective a b e = cc

pub >>=-eq-done {ℓ κ} :
    {A : Type ℓ} {B : Type κ} (m : Outcome A) (f : A → Outcome B) {b : B}
    → (m >>= f) ≡ done b
    → (a : A) × (m ≡ done a) × (f a ≡ done b)
>>=-eq-done (done a) f e = (a, refl, e)
>>=-eq-done died f e = cc
>>=-eq-done raised f e = cc

-- `MIN_VOLUME_ORDER_BOOK`, 0.00001
abbrev pub min_volume_order_book : ℕ
min_volume_order_book = 1000

-- `is_present`: whether the deal at the insertion point has the price of the new one.
abbrev pub present_at : List Deal → ℕ → Deal → Bool
present_at side idx new = elim (get_elem? side idx) [ none ↦ false | some d ↦ deal_eq d new ]

-- `side[idx].volume = volume`
abbrev pub set_volume : List Deal → ℕ → ℕ → List Deal
set_volume side idx volume = modify side idx (λ d. record d { volume = volume })

-- `side[idx].volume -= volume`, and `die_hard` if that is below zero.
abbrev pub subtract_volume : List Deal → ℕ → ℕ → Outcome (List Deal)
subtract_volume side idx volume = elim (get_elem? side idx) [
  | none ↦ raised
  | some d ↦ if ltb d.volume volume then died else done (set_volume side idx (d.volume - volume))
]

-- The ladder of `insert_new_ask_preserve_order` at its insertion point. What `update_volume_error`
-- logs is left out.
unfoldable pub apply_ask : List Deal → ℕ → Deal → Bool → Outcome (List Deal)
apply_ask ask item_insert_point new_ask overwrite_volume =
    let is_present = present_at ask item_insert_point new_ask in
    let almost_zero = leb new_ask.volume min_volume_order_book in
    let should_overwrite = is_present && overwrite_volume in
    let should_update_volume = is_present && not overwrite_volume in
    let update_volume_error = not is_present && not overwrite_volume in
    let should_delete = almost_zero && is_present in
    if should_delete
    then done (erase_idx ask item_insert_point)
    else if should_overwrite
    then done (set_volume ask item_insert_point new_ask.volume)
    else if should_update_volume
    then subtract_volume ask item_insert_point new_ask.volume
    else if update_volume_error
    then done ask
    else if not almost_zero
    then done (insert_idx ask item_insert_point new_ask)
    else done ask

-- The ladder of `insert_new_bid_preserve_order`: a branch on `is_present` alone stands second.
unfoldable pub apply_bid : List Deal → ℕ → Deal → Bool → Outcome (List Deal)
apply_bid bid item_insert_point new_bid overwrite_volume =
    let is_present = present_at bid item_insert_point new_bid in
    let almost_zero = leb new_bid.volume min_volume_order_book in
    let should_overwrite = is_present && overwrite_volume in
    let should_update_volume = is_present && not overwrite_volume in
    let update_volume_error = not is_present && not overwrite_volume in
    let should_delete = almost_zero && is_present in
    if should_delete
    then done (erase_idx bid item_insert_point)
    else if is_present
    then done (set_volume bid item_insert_point new_bid.volume)
    else if should_overwrite
    then done (set_volume bid item_insert_point new_bid.volume)
    else if should_update_volume
    then subtract_volume bid item_insert_point new_bid.volume
    else if update_volume_error
    then done bid
    else if not almost_zero
    then done (insert_idx bid item_insert_point new_bid)
    else done bid

-- On the list `self.ask`.
unfoldable pub insert_new_ask_preserve_order : List Deal → Deal → Bool → Outcome (List Deal)
unfolding apply_ask binary_search
insert_new_ask_preserve_order ask new_ask overwrite_volume =
    apply_ask ask (binary_search cmp_method_ask ask new_ask) new_ask overwrite_volume

-- On the list `self.bid`.
unfoldable pub insert_new_bid_preserve_order : List Deal → Deal → Bool → Outcome (List Deal)
unfolding apply_bid binary_search
insert_new_bid_preserve_order bid new_bid overwrite_volume =
    apply_bid bid (binary_search cmp_method_bid bid new_bid) new_bid overwrite_volume
