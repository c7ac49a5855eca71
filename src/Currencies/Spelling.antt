-- ===== src/Currencies/Spelling.antt =====
-- How the exchanges spell a pair: the names of its two currencies, joined.
use Prim.Native.String.{String, ◌++◌}
use text.Mathlib.Text.{◌==◌ as str_eq}
use text.Mathlib.TextEquality.{eq_iff}
use crypto_crawler.Prelude.{
  ℕ, ◌≡◌, ◌≢◌, refl, sym, subst, ◌∙◌, Bool, true, ◌||◌, Option, some, ==_iff,
}
use crypto_crawler.Enums.Currency
use crypto_crawler.Enums.Currency.{Currency}
use crypto_crawler.Enums.CurrencyPair
use crypto_crawler.Enums.CurrencyPair.{CurrencyPair}
use mathlib.Core.Option.{some-injective}
use crypto_crawler.Enums.Exchange
use crypto_crawler.Enums.Exchange.{Exchange}
use crypto_crawler.Currencies.Kraken.Currencies.{get_currency_name_for_kraken}
use crypto_crawler.Currencies.ByExchange.{get_currency_pair_name_by_exchange_id}
use crypto_crawler.Currencies.ExchangeLaws.{pair_to, pair_name-eq-pair_to}
use crypto_crawler.Currencies.Dict.{get_by_pair, get_by_currency}
use crypto_crawler.Currencies.Check.{all_entries, holds, holds-elim, get_by_id-all, or-elim}
use crypto_crawler.Currencies.Split.{split_currency_pairs}
use crypto_crawler.Currencies.PairLaws.{is_pair, usdt_to_omg}
use crypto_crawler.Currencies.Binance.Currencies.{get_currency_name_for_binance}
use crypto_crawler.Currencies.Binance.PairTo.{get_currency_pair_to_binance, binance_pairs_to}
use crypto_crawler.Currencies.Bittrex.Currencies.{get_currency_name_for_bittrex}
use crypto_crawler.Currencies.Bittrex.PairTo.{get_currency_pair_to_bittrex, bittrex_pairs_to}
use crypto_crawler.Currencies.Huobi.Currencies.{get_currency_name_for_huobi}
use crypto_crawler.Currencies.Huobi.PairTo.{get_currency_pair_to_huobi, huobi_pairs_to}
use crypto_crawler.Currencies.Poloniex.Currencies.{get_currency_name_for_poloniex}
use crypto_crawler.Currencies.Poloniex.PairTo.{get_currency_pair_to_poloniex, poloniex_pairs_to}

-- `dst` and `base` with nothing between, and `base` and `dst` with a dash or a low line.
abbrev pub dst_base : String → String → String
dst_base base dst = dst ++ base

abbrev pub base_dash_dst : String → String → String
base_dash_dst base dst = base ++ ("-" ++ dst)

abbrev pub base_line_dst : String → String → String
base_line_dst base dst = base ++ ("_" ++ dst)

-- `CURRENCY_PAIR.BTC_TO_RDD`
abbrev pub btc_to_rdd : ℕ
btc_to_rdd = 33

-- A name is spelled by the names of the two currencies that the pair splits into.
abbrev pub IsSpelled : (String → String → String) → (ℕ → Option String) → ℕ → String → Type 0
IsSpelled join name_for pair_id name =
    (b : Currency) × (d : Currency) × (base : String) × (dst : String) × (split_currency_pairs
        pair_id
      ≡ some (b, d))
    × (name_for (Currency.id b) ≡ some base)
    × (name_for (Currency.id d) ≡ some dst)
    × (name ≡ join base dst)

is_spelled : (String → String → String) → (ℕ → Option String) → CurrencyPair → String → Bool
unfolding holds
is_spelled join name_for k name =
    holds
      (λ (b, d).
        holds (λ base. holds (λ dst. str_eq name (join base dst)) (name_for (Currency.id d)))
          (name_for (Currency.id b)))
      (split_currency_pairs (CurrencyPair.id k))

is_spelled-elim :
    (join : String → String → String) (name_for : ℕ → Option String) (k : CurrencyPair)
    (name : String)
    → is_spelled join name_for k name ≡ true
    → IsSpelled join name_for (CurrencyPair.id k) name
unfolding is_spelled
is_spelled-elim join name_for k name h =
    let (s, split, hb) = holds-elim _ _ h in
    let (base, named, hd) = holds-elim _ _ hb in
    let (dst, named', same) = holds-elim _ _ hd in
    (s.0, s.1, base, dst, split, named, named', (eq_iff _ _).0 same)

binance_table_spelled :
    all_entries (is_spelled dst_base get_currency_name_for_binance) binance_pairs_to ≡ true
unfolding all_entries is_spelled split_currency_pairs get_currency_name_for_binance binance_pairs_to
    get_by_pair get_by_currency
binance_table_spelled = refl

-- Binance spells a pair by its own names of the two currencies of `split_currency_pairs`, the
-- destination first.
pub get_currency_pair_to_binance-IsSpelled :
    (pair_id : ℕ) {name : String}
    → get_currency_pair_to_binance pair_id ≡ some name
    → IsSpelled dst_base get_currency_name_for_binance pair_id name
unfolding get_currency_pair_to_binance get_by_pair
get_currency_pair_to_binance-IsSpelled pair_id {name = name} e =
    let (k, here, h) =
      get_by_id-all CurrencyPair.id _ binance_pairs_to pair_id binance_table_spelled e in
    subst (λ p. IsSpelled dst_base get_currency_name_for_binance p name) here
      (is_spelled-elim _ _ k _ h)

poloniex_table_spelled :
    all_entries (is_spelled base_line_dst get_currency_name_for_poloniex) poloniex_pairs_to ≡ true
unfolding all_entries is_spelled split_currency_pairs get_currency_name_for_poloniex
    poloniex_pairs_to get_by_pair get_by_currency
poloniex_table_spelled = refl

-- Poloniex spells a pair by its own names of the two currencies of `split_currency_pairs`, the base
-- first, with a low line between.
pub get_currency_pair_to_poloniex-IsSpelled :
    (pair_id : ℕ) {name : String}
    → get_currency_pair_to_poloniex pair_id ≡ some name
    → IsSpelled base_line_dst get_currency_name_for_poloniex pair_id name
unfolding get_currency_pair_to_poloniex get_by_pair
get_currency_pair_to_poloniex-IsSpelled pair_id {name = name} e =
    let (k, here, h) =
      get_by_id-all CurrencyPair.id _ poloniex_pairs_to pair_id poloniex_table_spelled e in
    subst (λ p. IsSpelled base_line_dst get_currency_name_for_poloniex p name) here
      (is_spelled-elim _ _ k _ h)

huobi_table_spelled :
    all_entries
      (λ k n. (is_pair usdt_to_omg k) || is_spelled dst_base get_currency_name_for_huobi k n)
      huobi_pairs_to
    ≡ true
unfolding all_entries is_spelled is_pair split_currency_pairs get_currency_name_for_huobi
    huobi_pairs_to get_by_pair get_by_currency
huobi_table_spelled = refl

-- Huobi spells a pair by its own names of the two currencies of `split_currency_pairs`, the
-- destination first, except for USDT_TO_OMG, which does not split.
pub get_currency_pair_to_huobi-IsSpelled :
    (pair_id : ℕ) {name : String}
    → pair_id ≢ usdt_to_omg
    → get_currency_pair_to_huobi pair_id ≡ some name
    → IsSpelled dst_base get_currency_name_for_huobi pair_id name
unfolding get_currency_pair_to_huobi get_by_pair is_pair
get_currency_pair_to_huobi-IsSpelled pair_id {name = name} ne e =
    let (k, here, h) =
      get_by_id-all CurrencyPair.id _ huobi_pairs_to pair_id huobi_table_spelled e in
    let spelled = or-elim _ _ h (λ t. ne (sym here ∙ (==_iff _ _).0 t)) in
    subst (λ p. IsSpelled dst_base get_currency_name_for_huobi p name) here
      (is_spelled-elim _ _ k _ spelled)

bittrex_table_spelled :
    all_entries
      (λ k n. (is_pair btc_to_rdd k) || is_spelled base_dash_dst get_currency_name_for_bittrex k n)
      bittrex_pairs_to
    ≡ true
unfolding all_entries is_spelled is_pair split_currency_pairs get_currency_name_for_bittrex
    bittrex_pairs_to get_by_pair get_by_currency
bittrex_table_spelled = refl

-- Bittrex spells a pair by its own names of the two currencies of `split_currency_pairs`, the base
-- first, with a dash between, except for BTC_TO_RDD, whose destination has no name there.
pub get_currency_pair_to_bittrex-IsSpelled :
    (pair_id : ℕ) {name : String}
    → pair_id ≢ btc_to_rdd
    → get_currency_pair_to_bittrex pair_id ≡ some name
    → IsSpelled base_dash_dst get_currency_name_for_bittrex pair_id name
unfolding get_currency_pair_to_bittrex get_by_pair is_pair
get_currency_pair_to_bittrex-IsSpelled pair_id {name = name} ne e =
    let (k, here, h) =
      get_by_id-all CurrencyPair.id _ bittrex_pairs_to pair_id bittrex_table_spelled e in
    let spelled = or-elim _ _ h (λ t. ne (sym here ∙ (==_iff _ _).0 t)) in
    subst (λ p. IsSpelled base_dash_dst get_currency_name_for_bittrex p name) here
      (is_spelled-elim _ _ k _ spelled)

-- How each exchange joins the two names, and what it calls a currency.
abbrev pub join_at : Exchange → String → String → String
join_at Exchange.binance = dst_base
join_at Exchange.huobi = dst_base
join_at Exchange.poloniex = base_line_dst
join_at _ = base_dash_dst

abbrev pub currency_name_at : Exchange → ℕ → Option String
currency_name_at Exchange.binance = get_currency_name_for_binance
currency_name_at Exchange.huobi = get_currency_name_for_huobi
currency_name_at Exchange.poloniex = get_currency_name_for_poloniex
currency_name_at Exchange.bittrex = get_currency_name_for_bittrex
currency_name_at Exchange.kraken = get_currency_name_for_kraken

-- The pairs that are left out: all of Kraken, one of Huobi, one of Bittrex.
abbrev pub IsOdd : Exchange → ℕ → Type 0
IsOdd Exchange.kraken pair_id = Unit
IsOdd Exchange.huobi pair_id = pair_id ≡ usdt_to_omg
IsOdd Exchange.bittrex pair_id = pair_id ≡ btc_to_rdd
IsOdd _ pair_id = ⊥

-- At Binance, Bittrex, Huobi and Poloniex, the name that the program uses for a pair is made of the
-- exchange's own names of the two currencies that the pair splits into, but for USDT_TO_OMG at Huobi,
-- which does not split, and BTC_TO_RDD at Bittrex, whose destination has no name there.
pub get_currency_pair_name_by_exchange_id-IsSpelled :
    (e : Exchange) (pair_id : ℕ) {name : String}
    → ¬ IsOdd e pair_id
    → get_currency_pair_name_by_exchange_id pair_id (Exchange.id e) ≡ some (some name)
    → IsSpelled (join_at e) (currency_name_at e) pair_id name
unfolding pair_to
get_currency_pair_name_by_exchange_id-IsSpelled e pair_id {name = name} plain h =
    by_exchange e plain (some-injective _ _ (sym (pair_name-eq-pair_to e pair_id) ∙ h))
  where
    by_exchange :
        (e : Exchange)
        → ¬ IsOdd e pair_id
        → pair_to e pair_id ≡ some name
        → IsSpelled (join_at e) (currency_name_at e) pair_id name
    by_exchange Exchange.binance plain h = get_currency_pair_to_binance-IsSpelled pair_id h
    by_exchange Exchange.poloniex plain h = get_currency_pair_to_poloniex-IsSpelled pair_id h
    by_exchange Exchange.huobi plain h = get_currency_pair_to_huobi-IsSpelled pair_id plain h
    by_exchange Exchange.bittrex plain h = get_currency_pair_to_bittrex-IsSpelled pair_id plain h
    by_exchange Exchange.kraken plain h = absurd (plain tt)
