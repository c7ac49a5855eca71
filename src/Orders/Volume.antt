-- ===== src/Orders/Volume.antt =====
-- The volume of an order: what is executed of it, what the balance allows, and the least that is
-- worth an order (core/expired_order.py, core/arbitrage_core.py).
use crypto_crawler.Prelude.{
  ℕ, ◌*◌, ℤ, pos, ◌-ℤ◌, ltb_ℤ, Bool, true, false, not, Option, none, some, ◌>>=◌, List, [], ◌∷◌,
  ◌==◌, if◌then◌else◌,
}
use crypto_crawler.Enums.Currency
use crypto_crawler.Enums.Currency.{Currency}
use crypto_crawler.Enums.Exchange
use crypto_crawler.Enums.Exchange.{Exchange}
use crypto_crawler.Enums.DealType.{DealType}
use crypto_crawler.Currencies.Dict.{get_by_currency}
use crypto_crawler.Currencies.Split.{split_currency_pairs}
use crypto_crawler.OrderBook.Insert.{Outcome, done, died, raised}
use crypto_crawler.Precision.Interface.{Decimals}
use crypto_crawler.Balances.{Balance, do_we_have_enough, lookup}
use crypto_crawler.Orders.{Number, decimal, float, Trade, trade_eq}

-- `a - b`, by the types of the two numbers.
unfoldable pub subtract : Number → Number → ℤ → ℤ → Outcome ℤ
unfolding ◌-ℤ◌
subtract decimal decimal a b = done (a -ℤ b)
subtract float float a b = done (a -ℤ b)
subtract _ _ a b = raised

-- The order that is made with the result of a subtraction, which may be an exception.
abbrev pub with_result : Outcome ℤ → (ℤ → Trade) → Outcome (Bool × Trade)
with_result (done n) f = done (true, f n)
with_result died f = died
with_result raised f = raised

-- Most exchanges list what is executed of the open order. A number less `None` is a `TypeError`.
unfoldable pub take_reported : Option ℤ → Trade → Outcome (Bool × Trade)
unfolding subtract
take_reported none expired_order = raised
take_reported (some executed) expired_order =
    with_result (subtract expired_order.volume_type decimal expired_order.volume executed)
      (λ left. record expired_order { volume = left; executed_volume = some executed })

-- Poloniex lists the volume that is left.
unfoldable pub take_left : Number → ℤ → Trade → Outcome (Bool × Trade)
unfolding subtract
take_left left_type left expired_order =
    with_result (subtract expired_order.volume_type left_type expired_order.volume left)
      (λ executed. record expired_order {
        volume = left;
        volume_type = left_type;
        executed_volume = some executed;
      })

-- The body of the loop for the open order `deal`.
unfoldable pub take_executed : Trade → Trade → Outcome (Bool × Trade)
unfolding Exchange.id take_reported take_left
take_executed deal expired_order =
    if not (expired_order.exchange_id == Exchange.id Exchange.poloniex)
    then take_reported deal.executed_volume expired_order
    else take_left deal.volume_type deal.volume expired_order

-- `executed_volume_updated`, with the order that it changes.
unfoldable pub executed_volume_updated : List Trade → Trade → Outcome (Bool × Trade)
unfolding trade_eq take_executed
executed_volume_updated [] expired_order = done (false, expired_order)
executed_volume_updated (deal ∷ open_orders) expired_order =
    let rest = executed_volume_updated open_orders expired_order in
    if trade_eq deal (some expired_order) then take_executed deal expired_order else rest

-- `MIN_VOLUME_COEFFICIENT`
unfoldable pub min_volume_coefficient : Decimals → List (Currency × ℤ)
min_volume_coefficient decimals =
    (Currency.bitcoin, decimals.of_float 4 3)
    ∷ (Currency.eth, decimals.of_float 4 2)
    ∷ (Currency.usdt, pos (40 * decimals.one))
    ∷ []

-- `MAX_VOLUME_COEFFICIENT`
abbrev max_volume_coefficient : Decimals → ℤ
max_volume_coefficient decimals = decimals.of_float 9 1

module _ (decimals : Decimals) where
  -- `volume = (MAX_VOLUME_COEFFICIENT * available) / price`
  unfoldable pub affordable : Balance → ℕ → ℤ → Option ℤ
  unfolding lookup
  affordable balance currency_id price = do
    available ← lookup balance.available_balance currency_id
    decimals.divide (decimals.multiply (max_volume_coefficient decimals) available) price

  -- The branches of `determine_maximum_volume_by_balance`, on the currencies of the pair. To buy, a
  -- volume of the type `float` is multiplied by the price, which is a `Decimal`.
  unfoldable pub volume_by_balance : ℕ → ℕ → DealType → Number → ℤ → ℤ → Balance → Option ℤ
  unfolding do_we_have_enough lookup affordable
  volume_by_balance base dst DealType.sell volume_type volume price balance = do
    enough ← do_we_have_enough balance dst volume
    (if enough then some volume else lookup balance.available_balance dst)
  volume_by_balance base dst DealType.buy float volume price balance = none
  volume_by_balance base dst DealType.buy decimal volume price balance = do
    enough ← do_we_have_enough balance base (decimals.multiply volume price)
    (if enough then some volume else affordable balance base price)
  volume_by_balance base dst _ volume_type volume price balance = some volume

  -- `determine_maximum_volume_by_balance`; `none` is an exception.
  unfoldable pub determine_maximum_volume_by_balance :
      ℕ → DealType → Number → ℤ → ℤ → Balance → Option ℤ
  unfolding split_currency_pairs Currency.id volume_by_balance
  determine_maximum_volume_by_balance pair_id deal_type volume_type volume price balance = do
    (base, dst) ← split_currency_pairs pair_id
    volume_by_balance (Currency.id base) (Currency.id dst) deal_type volume_type volume price
        balance

  -- `MIN_VOLUME_COEFFICIENT[base_currency_id] / min_price`
  unfoldable pub volume_for : Currency → ℤ → Option ℤ
  unfolding Currency.id get_by_currency min_volume_coefficient
  volume_for base min_price = do
    coefficient ← get_by_currency (min_volume_coefficient decimals) (Currency.id base)
    decimals.divide coefficient min_price

  -- The end of `compute_min_cap_from_ticker` and `compute_new_min_cap_from_tickers`, for a price that
  -- is not below zero.
  unfoldable pub cap_at_price : ℕ → ℤ → Option ℤ
  unfolding split_currency_pairs volume_for
  cap_at_price pair_id min_price = do
    (base, dst) ← split_currency_pairs pair_id
    (if ltb_ℤ (pos 0) min_price then volume_for base min_price else some (pos 0))

  abbrev max_price : ℤ → ℤ → ℤ
  max_price a b = if ltb_ℤ a b then b else a

  -- `compute_min_cap_from_ticker`, with the ask of the ticker.
  unfoldable pub compute_min_cap_from_ticker : ℕ → Option ℤ → Option ℤ
  unfolding cap_at_price
  compute_min_cap_from_ticker pair_id none = cap_at_price pair_id (pos 0)
  compute_min_cap_from_ticker pair_id (some ask) = cap_at_price pair_id (max_price (pos 0) ask)

  -- The loop of `compute_new_min_cap_from_tickers`: of each ticker `none` where it is `None`, and
  -- `some none` where it is a text with an error, which has no ask.
  unfoldable pub greatest_ask : List (Option (Option ℤ)) → ℤ → ℤ
  greatest_ask [] min_price = min_price
  greatest_ask (some (some ask) ∷ tickers) min_price =
      greatest_ask tickers (max_price min_price ask)
  greatest_ask (some none ∷ tickers) min_price = greatest_ask tickers min_price
  greatest_ask (none ∷ tickers) min_price = greatest_ask tickers min_price

  -- `compute_new_min_cap_from_tickers`
  unfoldable pub compute_new_min_cap_from_tickers : ℕ → List (Option (Option ℤ)) → Option ℤ
  unfolding cap_at_price greatest_ask
  compute_new_min_cap_from_tickers pair_id tickers =
      cap_at_price pair_id (greatest_ask tickers (pos 0))
