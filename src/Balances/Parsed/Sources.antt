-- ===== src/Balances/Parsed/Sources.antt =====
-- Where the volumes in a balance come from in the document of each exchange (data/balance.py).
use Prim.Native.String.{String}
use crypto_crawler.Prelude.{ℕ, ℤ, ◌≡◌, Option, some, ◌>>=◌, >>=-eq-some, List, Bool, true, false}
use crypto_crawler.Currencies.Poloniex.Currencies.{get_currency_name_for_poloniex}
use crypto_crawler.Currencies.Kraken.Currencies.{get_currency_name_for_kraken}
use crypto_crawler.Currencies.Bittrex.Currencies.{get_currency_name_for_bittrex}
use crypto_crawler.Currencies.Binance.Currencies.{get_currency_name_for_binance}
use crypto_crawler.Currencies.Huobi.Currencies.{get_currency_name_for_huobi}
use crypto_crawler.Sockets.{Json, get_field, iterate, contains}
use crypto_crawler.Balances.Parsed.Dicts.{get_key, has_key, is_name}
use crypto_crawler.Balances.Parsed.{kraken_named, kraken_volume}
use crypto_crawler.Balances.Parsed.Covered.{Among}

module _ (to_decimal : Json → Option ℤ) where
  -- The number under a key.
  abbrev pub Under : String → Json → ℤ → Type 0
  Under key entry x = (j : Json) × (get_field entry key ≡ some j) × (to_decimal j ≡ some x)

  -- The entry has the name of the currency under a key.
  abbrev pub Named : String → Option String → Json → Type 0
  Named key currency_name entry =
      (j : Json) × (get_field entry key ≡ some j) × (is_name currency_name j ≡ true)

  -- One of some entries.
  abbrev pub OneOf : Option (List Json) → (Json → Type 0) → Type 0
  OneOf entries P =
      (all : List Json) × (entry : Json) × (entries ≡ some all) × Among entry all × P entry

  module _ (doc : Json) where
    -- At Poloniex the number `available` of the value of the currency, and at Kraken its value.
    abbrev pub InPoloniex : ℕ → ℤ → Type 0
    InPoloniex n x =
        (entry : Json) × (get_key doc (get_currency_name_for_poloniex n) ≡ some entry)
        × Under "available" entry x

    abbrev pub InKraken : ℕ → ℤ → Type 0
    InKraken n x =
        (entry : Json) × (get_key doc (get_currency_name_for_kraken n) ≡ some entry)
        × (to_decimal entry ≡ some x)

    -- At the others a number of an entry with the name of the currency, at Huobi not a frozen one.
    abbrev pub InBittrex : ℕ → ℤ → Type 0
    InBittrex n x = OneOf (iterate doc) (λ entry.
        Named "Currency" (get_currency_name_for_bittrex n) entry × Under "Available" entry x)

    abbrev pub InBinance : ℕ → ℤ → Type 0
    InBinance n x =
        OneOf (get_field doc "balances" >>= iterate)
          (λ entry. Named "asset" (get_currency_name_for_binance n) entry × Under "free" entry x)

    abbrev pub InHuobi : ℕ → ℤ → Type 0
    InHuobi n x = OneOf (get_field doc "list" >>= iterate) (λ entry.
        Named "currency" (get_currency_name_for_huobi n) entry
        × Under "balance" entry x
        × ((ty : Json) × (get_field entry "type" ≡ some ty) × (contains ty "frozen" ≡ some false)))

    kraken_named-InKraken :
        (n : ℕ) (named : Bool) (x : ℤ)
        → kraken_named to_decimal doc (get_currency_name_for_kraken n) named ≡ some (some x)
        → InKraken n x
    unfolding kraken_named
    kraken_named-InKraken n false x h = absurd cc
    kraken_named-InKraken n true x h =
        let (entry, here, rest) = >>=-eq-some (get_key doc (get_currency_name_for_kraken n)) _ h in
        let (volume, read, same) = >>=-eq-some (to_decimal entry) _ rest in (entry, here, cc)

    pub kraken_volume-InKraken :
        (n : ℕ) (x : ℤ)
        → kraken_volume to_decimal doc (get_currency_name_for_kraken n) ≡ some (some x)
        → InKraken n x
    unfolding kraken_volume
    kraken_volume-InKraken n x h =
        let (named, has, rest) = >>=-eq-some (has_key doc (get_currency_name_for_kraken n)) _ h in
        kraken_named-InKraken n named x rest
