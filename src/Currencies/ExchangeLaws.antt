-- ===== src/Currencies/ExchangeLaws.antt =====
-- Every exchange's two tables of pair names (`*/currency_utils.py`) undo one another.
use Prim.Native.String.{String}
use text.Mathlib.Text.{◌==◌ as str_eq}
use text.Mathlib.TextEquality.{eq_iff}
use mathlib.Core.Option.{some-injective}
use crypto_crawler.Prelude.{ℕ, ◌≡◌, ◌≢◌, refl, sym, ◌∙◌, Bool, true, Option, some, List, ==_iff}
use crypto_crawler.Enums.CurrencyPair
use crypto_crawler.Enums.CurrencyPair.{CurrencyPair}
use crypto_crawler.Enums.Exchange
use crypto_crawler.Enums.Exchange.{Exchange}
use crypto_crawler.Currencies.Dict.{get_by_pair, get_by_name}
use crypto_crawler.Currencies.Check.{all_entries, holds, holds-elim, get_by_id-all, get_by_name-all}
use crypto_crawler.Currencies.PairLaws.{is_pair}
use crypto_crawler.Currencies.ByExchange.{get_currency_pair_name_by_exchange_id}
use crypto_crawler.Currencies.Binance.PairFrom.{get_currency_pair_from_binance, binance_pairs_from}
use crypto_crawler.Currencies.Binance.PairTo.{get_currency_pair_to_binance, binance_pairs_to}
use crypto_crawler.Currencies.Bittrex.PairFrom.{get_currency_pair_from_bittrex, bittrex_pairs_from}
use crypto_crawler.Currencies.Bittrex.PairTo.{get_currency_pair_to_bittrex, bittrex_pairs_to}
use crypto_crawler.Currencies.Huobi.PairFrom.{get_currency_pair_from_huobi, huobi_pairs_from}
use crypto_crawler.Currencies.Huobi.PairTo.{get_currency_pair_to_huobi, huobi_pairs_to}
use crypto_crawler.Currencies.Kraken.PairFrom.{get_currency_pair_from_kraken, kraken_pairs_from}
use crypto_crawler.Currencies.Kraken.PairTo.{get_currency_pair_to_kraken, kraken_pairs_to}
use crypto_crawler.Currencies.Poloniex.PairFrom.{
  get_currency_pair_from_poloniex, poloniex_pairs_from,
}
use crypto_crawler.Currencies.Poloniex.PairTo.{get_currency_pair_to_poloniex, poloniex_pairs_to}

-- The table of names of an exchange, and the two readings, by exchange.
unfoldable pub pairs_to : Exchange → List (CurrencyPair × String)
pairs_to Exchange.binance = binance_pairs_to
pairs_to Exchange.bittrex = bittrex_pairs_to
pairs_to Exchange.huobi = huobi_pairs_to
pairs_to Exchange.kraken = kraken_pairs_to
pairs_to Exchange.poloniex = poloniex_pairs_to

pairs_from : Exchange → List (String × CurrencyPair)
pairs_from Exchange.binance = binance_pairs_from
pairs_from Exchange.bittrex = bittrex_pairs_from
pairs_from Exchange.huobi = huobi_pairs_from
pairs_from Exchange.kraken = kraken_pairs_from
pairs_from Exchange.poloniex = poloniex_pairs_from

unfoldable pub pair_to : Exchange → ℕ → Option String
pair_to Exchange.binance = get_currency_pair_to_binance
pair_to Exchange.bittrex = get_currency_pair_to_bittrex
pair_to Exchange.huobi = get_currency_pair_to_huobi
pair_to Exchange.kraken = get_currency_pair_to_kraken
pair_to Exchange.poloniex = get_currency_pair_to_poloniex

unfoldable pub pair_from : Exchange → String → Option CurrencyPair
pair_from Exchange.binance = get_currency_pair_from_binance
pair_from Exchange.bittrex = get_currency_pair_from_bittrex
pair_from Exchange.huobi = get_currency_pair_from_huobi
pair_from Exchange.kraken = get_currency_pair_from_kraken
pair_from Exchange.poloniex = get_currency_pair_from_poloniex

to_then_from :
    (e : Exchange)
    → all_entries (λ k n. holds (is_pair (CurrencyPair.id k)) (pair_from e n)) (pairs_to e) ≡ true
unfolding all_entries holds is_pair pair_from pairs_to get_by_name get_currency_pair_from_binance
    binance_pairs_to get_currency_pair_from_bittrex bittrex_pairs_to get_currency_pair_from_huobi
    huobi_pairs_to get_currency_pair_from_kraken kraken_pairs_to get_currency_pair_from_poloniex
    poloniex_pairs_to
to_then_from Exchange.binance = refl
to_then_from Exchange.bittrex = refl
to_then_from Exchange.huobi = refl
to_then_from Exchange.kraken = refl
to_then_from Exchange.poloniex = refl

pub pair_to-all :
    (e : Exchange) (p : CurrencyPair → String → Bool) (pair_id : ℕ) {name : String}
    → all_entries p (pairs_to e) ≡ true
    → pair_to e pair_id ≡ some name
    → (k : CurrencyPair) × (CurrencyPair.id k ≡ pair_id) × (p k name ≡ true)
unfolding pair_to pairs_to get_by_pair get_currency_pair_to_binance get_currency_pair_to_bittrex
    get_currency_pair_to_huobi get_currency_pair_to_kraken get_currency_pair_to_poloniex
pair_to-all Exchange.binance p n h f = get_by_id-all CurrencyPair.id p _ n h f
pair_to-all Exchange.bittrex p n h f = get_by_id-all CurrencyPair.id p _ n h f
pair_to-all Exchange.huobi p n h f = get_by_id-all CurrencyPair.id p _ n h f
pair_to-all Exchange.kraken p n h f = get_by_id-all CurrencyPair.id p _ n h f
pair_to-all Exchange.poloniex p n h f = get_by_id-all CurrencyPair.id p _ n h f

pub pair_name-eq-pair_to :
    (e : Exchange) (pair_id : ℕ)
    → get_currency_pair_name_by_exchange_id pair_id (Exchange.id e) ≡ some (pair_to e pair_id)
unfolding get_currency_pair_name_by_exchange_id pair_to Exchange.id
pair_name-eq-pair_to Exchange.binance pair_id = refl
pair_name-eq-pair_to Exchange.bittrex pair_id = refl
pair_name-eq-pair_to Exchange.huobi pair_id = refl
pair_name-eq-pair_to Exchange.kraken pair_id = refl
pair_name-eq-pair_to Exchange.poloniex pair_id = refl

-- The name that the program uses for a pair at an exchange is read back as that pair, at each of
-- the five exchanges.
pub pair_from-get_currency_pair_name_by_exchange_id :
    (e : Exchange) (pair_id : ℕ) {name : String}
    → get_currency_pair_name_by_exchange_id pair_id (Exchange.id e) ≡ some (some name)
    → (k : CurrencyPair) × (pair_from e name ≡ some k) × (CurrencyPair.id k ≡ pair_id)
unfolding is_pair
pair_from-get_currency_pair_name_by_exchange_id e pair_id f =
    let f' = some-injective _ _ (sym (pair_name-eq-pair_to e pair_id) ∙ f) in
    let (k, here, h) = pair_to-all e _ pair_id (to_then_from e) f' in
    let (j, found, same) = holds-elim _ _ h in (j, found, (==_iff _ _).0 same ∙ here)

from_then_to :
    (e : Exchange)
    → e ≢ Exchange.kraken
    → all_entries (λ n k. holds (str_eq n) (pair_to e (CurrencyPair.id k))) (pairs_from e) ≡ true
unfolding all_entries holds pair_to pairs_from get_by_pair get_currency_pair_to_binance
    binance_pairs_from get_currency_pair_to_bittrex bittrex_pairs_from get_currency_pair_to_huobi
    huobi_pairs_from get_currency_pair_to_kraken kraken_pairs_from get_currency_pair_to_poloniex
    poloniex_pairs_from
from_then_to Exchange.binance h = refl
from_then_to Exchange.bittrex h = refl
from_then_to Exchange.huobi h = refl
from_then_to Exchange.kraken h = absurd (h refl)
from_then_to Exchange.poloniex h = refl

pair_from-all :
    (e : Exchange) (p : String → CurrencyPair → Bool) (name : String) {k : CurrencyPair}
    → all_entries p (pairs_from e) ≡ true
    → pair_from e name ≡ some k
    → p name k ≡ true
unfolding pair_from pairs_from get_currency_pair_from_binance get_currency_pair_from_bittrex
    get_currency_pair_from_huobi get_currency_pair_from_kraken get_currency_pair_from_poloniex
pair_from-all Exchange.binance p n h f = get_by_name-all p _ n h f
pair_from-all Exchange.bittrex p n h f = get_by_name-all p _ n h f
pair_from-all Exchange.huobi p n h f = get_by_name-all p _ n h f
pair_from-all Exchange.kraken p n h f = get_by_name-all p _ n h f
pair_from-all Exchange.poloniex p n h f = get_by_name-all p _ n h f

-- At every exchange but Kraken, which has two spellings for many pairs, a name that is read as a
-- pair is the name that the program uses for that pair there.
pub get_currency_pair_name_by_exchange_id-pair_from :
    (e : Exchange) (name : String) {k : CurrencyPair}
    → e ≢ Exchange.kraken
    → pair_from e name ≡ some k
    → get_currency_pair_name_by_exchange_id (CurrencyPair.id k) (Exchange.id e) ≡ some (some name)
get_currency_pair_name_by_exchange_id-pair_from e name h f =
    let (n, found, same) = holds-elim _ _ (pair_from-all e _ name (from_then_to e h) f) in
    rw (pair_name-eq-pair_to, found, (eq_iff _ _).0 same)
