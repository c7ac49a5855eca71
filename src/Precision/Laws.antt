-- ===== src/Precision/Laws.antt =====
-- Every pair that an exchange trades has decimal places (`round_volume` of core/arbitrage_core.py).
use Prim.Native.String.{String}
use mathlib.Core.Option.{some-injective}
use crypto_crawler.Prelude.{
  ℕ, ◌≤◌, ℤ, ◌≡◌, ◌≢◌, refl, sym, ◌∙◌, ◌⊎◌, inl, inr, Bool, true, ◌||◌, Option, none, some, ◌==◌,
  leb, ==_iff, subst, arith,
}
use crypto_crawler.Enums.CurrencyPair
use crypto_crawler.Enums.CurrencyPair.{CurrencyPair}
use crypto_crawler.Enums.Exchange
use crypto_crawler.Enums.Exchange.{Exchange}
use crypto_crawler.Currencies.Check.{all_entries, holds, or-elim}
use crypto_crawler.Currencies.ByExchange.{get_currency_pair_name_by_exchange_id}
use crypto_crawler.Currencies.ExchangeLaws.{pairs_to, pair_to-all, pair_name-eq-pair_to}
use crypto_crawler.Currencies.Dict.{get_by_pair, get_by_name}
use crypto_crawler.Precision.BinanceNumbers.{
  binance_precision_btc_number, binance_precision_eth_number, binance_precision_usdt_number,
}
use crypto_crawler.Precision.HuobiNumbers.{
  huobi_precision_btc_number, huobi_precision_eth_number, huobi_precision_usdt_number,
}
use crypto_crawler.Precision.{binance_places, huobi_places, truncate_float, round_by, round_volume}
use crypto_crawler.Precision.Interface.{Decimals}

-- At most eight places, or no rounding.
unfoldable fits : Option ℕ → Bool
fits none = true
fits (some n) = leb n 8

-- `split_currency_pairs` does not know USDT_TO_OMG.
unfoldable unknown : ℕ → Bool
unfolding CurrencyPair.id
unknown pair_id = pair_id == CurrencyPair.id CurrencyPair.usdt_to_omg

binance_fits :
    all_entries
      (λ k name. holds fits (binance_places (CurrencyPair.id k)))
      (pairs_to Exchange.binance)
    ≡ true
unfolding all_entries holds fits binance_places pairs_to get_by_pair get_by_name
    binance_precision_btc_number binance_precision_eth_number binance_precision_usdt_number
binance_fits = refl

huobi_fits :
    all_entries
      (λ k name. unknown (CurrencyPair.id k) || holds fits (huobi_places (CurrencyPair.id k)))
      (pairs_to Exchange.huobi)
    ≡ true
unfolding all_entries holds fits unknown huobi_places pairs_to get_by_pair get_by_name
    huobi_precision_btc_number huobi_precision_eth_number huobi_precision_usdt_number
huobi_fits = refl

-- A volume as it is, or cut after at most eight places.
abbrev pub IsRounded : Decimals → ℤ → Option ℤ → Type 0
IsRounded decimals volume r =
    (r ≡ some volume) ⊎ ((n : ℕ) × (n ≤ 8) × (r ≡ truncate_float decimals volume n))

round_by-IsRounded :
    (d : Decimals) (volume : ℤ) (places : Option (Option ℕ))
    → holds fits places ≡ true
    → IsRounded d volume (round_by d places volume)
unfolding holds fits round_by
round_by-IsRounded d v none h = absurd cc
round_by-IsRounded d v (some none) h = inl refl
round_by-IsRounded d v (some (some n)) h = inr (n, ground arith, refl)

-- At each of the five exchanges and for every pair that it names, but for USDT_TO_OMG, the volume
-- is left as it is or cut after at most eight decimal places: no table lacks its key.
pub round_volume-IsRounded :
    (d : Decimals) (e : Exchange) (pair_id : ℕ) (volume : ℤ) {name : String}
    → get_currency_pair_name_by_exchange_id pair_id (Exchange.id e) ≡ some (some name)
    → pair_id ≢ CurrencyPair.id CurrencyPair.usdt_to_omg
    → IsRounded d volume (round_volume d (Exchange.id e) volume pair_id)
unfolding round_volume unknown
round_volume-IsRounded d Exchange.binance p v f h =
    let f' = some-injective _ _ (sym (pair_name-eq-pair_to Exchange.binance p) ∙ f) in
    let (k, here, fit) = pair_to-all Exchange.binance _ p binance_fits f' in
    round_by-IsRounded d v (binance_places p)
      (subst (λ q. holds fits (binance_places q) ≡ true) here fit)
round_volume-IsRounded d Exchange.huobi p v f h =
    let f' = some-injective _ _ (sym (pair_name-eq-pair_to Exchange.huobi p) ∙ f) in
    let (k, here, fit) = pair_to-all Exchange.huobi _ p huobi_fits f' in
    round_by-IsRounded d v (huobi_places p) (
      or-elim _ _ (subst (λ q. (unknown q || holds fits (huobi_places q)) ≡ true) here fit)
        (λ same. h ((==_iff _ _).0 same)))
round_volume-IsRounded d Exchange.bittrex p v f h = inr (8, omega arith, refl)
round_volume-IsRounded d Exchange.kraken p v f h = inr (8, omega arith, refl)
round_volume-IsRounded d Exchange.poloniex p v f h = inr (8, omega arith, refl)
