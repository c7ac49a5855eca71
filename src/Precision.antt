-- ===== src/Precision.antt =====
-- Numbers as text and the decimal places of volumes: utils/string_utils.py, and
-- `round_volume_by_binance_rules` and `round_volume_by_huobi_rules` of the precision_by_currency.py
-- of the two exchanges.
pub mod Interface
pub mod BinanceNumbers
pub mod HuobiNumbers
pub mod Laws
use Prim.Native.String.{String, slice}
use Prim.Native.Nat.{suc}
use text.Mathlib.Text.{find?}
use crypto_crawler.Prelude.{ℕ, ◌+◌, ℤ, Option, none, some, List, [], ◌∷◌, ◌==◌, if◌then◌else◌, ◌||◌}
use crypto_crawler.Enums.Currency.{Currency}
use crypto_crawler.Enums.Currency
use crypto_crawler.Enums.Exchange.{Exchange}
use crypto_crawler.Enums.Exchange
use crypto_crawler.Currencies.Dict.{get_by_name, get_by_currency}
use crypto_crawler.Currencies.Split.{split_currency_pairs}
use crypto_crawler.Currencies.Binance.PairTo.{get_currency_pair_to_binance}
use crypto_crawler.Currencies.Huobi.PairTo.{get_currency_pair_to_huobi}
use crypto_crawler.Precision.Interface.{Decimals}
use crypto_crawler.Precision.BinanceNumbers.{
  binance_precision_btc_number, binance_precision_eth_number, binance_precision_usdt_number,
}
use crypto_crawler.Precision.HuobiNumbers.{
  huobi_precision_btc_number, huobi_precision_eth_number, huobi_precision_usdt_number,
}

-- `PRECISION_NUMBER` of binance/precision_by_currency.py
unfoldable pub binance_precision_number : List (Currency × List (String × ℕ))
binance_precision_number =
    (Currency.bitcoin, binance_precision_btc_number)
    ∷ (Currency.eth, binance_precision_eth_number)
    ∷ (Currency.usdt, binance_precision_usdt_number)
    ∷ []

-- `PRECISION_NUMBER` of huobi/precision_by_currency.py
unfoldable pub huobi_precision_number : List (Currency × List (String × ℕ))
huobi_precision_number =
    (Currency.bitcoin, huobi_precision_btc_number)
    ∷ (Currency.eth, huobi_precision_eth_number)
    ∷ (Currency.usdt, huobi_precision_usdt_number)
    ∷ []

-- The number of places in a table of tables: `some none` where the pair is not in the table of its
-- base currency, and `none` for the `KeyError` of a pair that does not split or of a base without
-- a table. A pair without a name is in no table.
unfoldable pub places_for :
    List (Currency × List (String × ℕ)) → Option String → ℕ → Option (Option ℕ)
unfolding split_currency_pairs get_by_currency Currency.id
places_for tables pair_name pair_id = elim (split_currency_pairs pair_id) [
  | none ↦ none
  | some (base, dst) ↦ elim (get_by_currency tables (Currency.id base)) [
    | none ↦ none
    | some table ↦ elim pair_name [ none ↦ some none | some name ↦ some (get_by_name table name) ]
  ]
]

unfoldable pub binance_places : ℕ → Option (Option ℕ)
unfolding places_for binance_precision_number get_currency_pair_to_binance
binance_places pair_id =
    places_for binance_precision_number (get_currency_pair_to_binance pair_id) pair_id

unfoldable pub huobi_places : ℕ → Option (Option ℕ)
unfolding places_for huobi_precision_number get_currency_pair_to_huobi
huobi_places pair_id =
    places_for huobi_precision_number (get_currency_pair_to_huobi pair_id) pair_id

module _ (decimals : Decimals) where
  -- `truncate_float`; `none` is the exception of `float` on a text that it cannot read.
  unfoldable pub truncate_float : ℤ → ℕ → Option ℤ
  truncate_float float_num n =
      let str_repr = decimals.print float_num in
      elim (find? str_repr ".") [
        | none ↦ some float_num
        | some idx ↦
            if idx == 0 then some float_num else decimals.parse (slice str_repr 0 (1 + idx + n))
      ]

  -- To the places of the table, and as it is where there are none.
  unfoldable pub round_by : Option (Option ℕ) → ℤ → Option ℤ
  unfolding truncate_float
  round_by none volume = none
  round_by (some none) volume = some volume
  round_by (some (some n)) volume = truncate_float volume n

  unfoldable pub round_volume_by_binance_rules : ℤ → ℕ → Option ℤ
  unfolding round_by binance_places
  round_volume_by_binance_rules volume pair_id = round_by (binance_places pair_id) volume

  unfoldable pub round_volume_by_huobi_rules : ℤ → ℕ → Option ℤ
  unfolding round_by huobi_places
  round_volume_by_huobi_rules volume pair_id = round_by (huobi_places pair_id) volume

  -- `round_volume` (core/arbitrage_core.py)
  unfoldable pub round_volume : ℕ → ℤ → ℕ → Option ℤ
  unfolding truncate_float round_volume_by_binance_rules round_volume_by_huobi_rules Exchange.id
  round_volume exchange_id min_volume pair_id =
      if exchange_id == Exchange.id Exchange.binance
      then round_volume_by_binance_rules min_volume pair_id
      else if exchange_id == Exchange.id Exchange.huobi
      then round_volume_by_huobi_rules min_volume pair_id
      else truncate_float min_volume 8

  -- `round_volume_by_exchange_rules` (core/arbitrage_core.py)
  unfoldable pub round_volume_by_exchange_rules : ℕ → ℕ → ℤ → ℕ → Option ℤ
  unfolding truncate_float round_volume_by_binance_rules round_volume_by_huobi_rules Exchange.id
  round_volume_by_exchange_rules sell_exchange_id buy_exchange_id min_volume pair_id =
      if (sell_exchange_id == Exchange.id Exchange.binance)
        || (buy_exchange_id == Exchange.id Exchange.binance)
      then round_volume_by_binance_rules min_volume pair_id
      else if (sell_exchange_id == Exchange.id Exchange.huobi)
          || (buy_exchange_id == Exchange.id Exchange.huobi)
      then round_volume_by_huobi_rules min_volume pair_id
      else truncate_float min_volume 8
