-- ===== src/Currencies/PairLaws.antt =====
-- Pairs, their names and the two currencies of each (utils/currency_utils.py).
use Prim.Native.String.{String}
use text.Mathlib.Text.{◌==◌ as str_eq}
use text.Mathlib.TextEquality.{eq_iff}
use crypto_crawler.Prelude.{
  ℕ, ◌≡◌, ◌≢◌, ◌↔◌, refl, sym, ◌∙◌, Bool, true, false, not, ◌&&◌, none, some, ◌==◌, ==_iff, ==_refl,
}
use crypto_crawler.Enums.Currency
use crypto_crawler.Enums.Currency.{Currency}
use crypto_crawler.Enums.CurrencyPair
use crypto_crawler.Enums.CurrencyPair.{CurrencyPair}
use crypto_crawler.Currencies.Dict.{get_by_pair, get_by_name, upper}
use crypto_crawler.Currencies.Split.{split_currency_pairs, split_table}
use crypto_crawler.Currencies.PairNames.{get_pair_name_by_id, pair_name_table}
use crypto_crawler.Currencies.PairIds.{get_pair_id_by_name, pair_id_table}
use crypto_crawler.Currencies.Check.{
  all_entries, holds, holds-elim, get_by_id-all, get_by_name-all, is_none, is_none_iff, implies,
  implies-elim, agree, agree-elim, and-elim, ne_of_test,
}

unfoldable pub is_pair : ℕ → CurrencyPair → Bool
unfolding CurrencyPair.id
is_pair p k = CurrencyPair.id k == p

names_have_ids :
    all_entries (λ k n. holds (is_pair (CurrencyPair.id k)) (get_pair_id_by_name n)) pair_name_table
    ≡ true
unfolding all_entries holds is_pair get_pair_id_by_name pair_name_table get_by_name upper
names_have_ids = refl

-- The name of a pair leads back to its number.
pub get_pair_id_by_name-get_pair_name_by_id :
    (pair_id : ℕ) {name : String}
    → get_pair_name_by_id pair_id ≡ some name
    → (k : CurrencyPair) × (get_pair_id_by_name name ≡ some k) × (CurrencyPair.id k ≡ pair_id)
unfolding get_pair_name_by_id get_by_pair is_pair
get_pair_id_by_name-get_pair_name_by_id pair_id e =
    let (k, here, h) = get_by_id-all CurrencyPair.id _ pair_name_table pair_id names_have_ids e in
    let (j, found, same) = holds-elim _ _ h in (j, found, (==_iff _ _).0 same ∙ here)

ids_have_names :
    all_entries
      (λ n k. holds (str_eq (upper n)) (get_pair_name_by_id (CurrencyPair.id k)))
      pair_id_table
    ≡ true
unfolding all_entries holds get_pair_name_by_id pair_id_table get_by_pair upper
ids_have_names = refl

-- A name that is known, in capitals or not, is the name of the pair that it leads to.
pub get_pair_name_by_id-get_pair_id_by_name :
    (name : String) {k : CurrencyPair}
    → get_pair_id_by_name name ≡ some k
    → get_pair_name_by_id (CurrencyPair.id k) ≡ some (upper (upper name))
unfolding get_pair_id_by_name
get_pair_name_by_id-get_pair_id_by_name name {k = k} e =
    let h = get_by_name-all _ pair_id_table (upper name) ids_have_names e in
    let (n, found, same) = holds-elim _ _ h in rw ((eq_iff _ _).0 same) found

-- Whether two pairs are of the same currencies.
same_split : Currency × Currency → Currency × Currency → Bool
unfolding Currency.id
same_split (b, d) (b', d') = (Currency.id b == Currency.id b') && (Currency.id d == Currency.id d')

same_split_refl : (s : Currency × Currency) → same_split s s ≡ true
unfolding same_split
same_split_refl (b, d) = rw (==_refl (Currency.id b), ==_refl (Currency.id d))

splits_differ :
    all_entries
      (λ j s.
        all_entries (λ k t. implies (same_split s t) (is_pair (CurrencyPair.id k) j)) split_table)
      split_table
    ≡ true
unfolding all_entries is_pair split_table same_split implies
splits_differ = refl

-- No two pairs have the same base and the same destination currency.
pub split_currency_pairs-injective :
    (p q : ℕ) {s : Currency × Currency}
    → split_currency_pairs p ≡ some s
    → split_currency_pairs q ≡ some s
    → p ≡ q
unfolding split_currency_pairs get_by_pair is_pair
split_currency_pairs-injective p q {s = s} e f =
    let (j, here, hj) = get_by_id-all CurrencyPair.id _ split_table p splits_differ e in
    let (k, there, hk) = get_by_id-all CurrencyPair.id _ split_table q hj f in
    let same = implies-elim _ _ hk (same_split_refl s) in sym here ∙ (==_iff _ _).0 same ∙ there

pub is_base : Currency → Bool
is_base Currency.bitcoin = true
is_base Currency.eth = true
is_base Currency.usd = true
is_base Currency.usdt = true
is_base _ = false

splits_are_proper :
    all_entries (λ k s. is_base s.0 && not (Currency.id s.0 == Currency.id s.1)) split_table ≡ true
unfolding all_entries split_table is_base Currency.id
splits_are_proper = refl

-- A pair trades two different currencies, and its base is BTC, ETH, USD or USDT.
pub split_currency_pairs-proper :
    (p : ℕ) {b d : Currency}
    → split_currency_pairs p ≡ some (b, d)
    → (is_base b ≡ true) × (Currency.id b ≢ Currency.id d)
unfolding split_currency_pairs get_by_pair
split_currency_pairs-proper p e =
    let (k, here, h) = get_by_id-all CurrencyPair.id _ split_table p splits_are_proper e in
    let (base, ne) = and-elim _ _ h in (base, ne_of_test _ _ ne)

-- `CURRENCY_PAIR.USDT_TO_OMG`
abbrev pub usdt_to_omg : ℕ
usdt_to_omg = 3039

one_unsplit :
    all_entries
      (λ k n. agree (is_none (split_currency_pairs (CurrencyPair.id k))) (is_pair usdt_to_omg k))
      pair_name_table
    ≡ true
unfolding all_entries is_none agree split_currency_pairs get_by_pair pair_name_table is_pair
one_unsplit = refl

-- Among the pairs that have a name, `split_currency_pairs` raises for USDT_TO_OMG and for no other.
pub split_currency_pairs-fails :
    (p : ℕ) {name : String}
    → get_pair_name_by_id p ≡ some name
    → (split_currency_pairs p ≡ none) ↔ (p ≡ usdt_to_omg)
unfolding get_pair_name_by_id get_by_pair is_pair
split_currency_pairs-fails p e =
    let (k, here, h) = get_by_id-all CurrencyPair.id _ pair_name_table p one_unsplit e in
    let same : is_none (split_currency_pairs p) ≡ (p == usdt_to_omg) =
      rw here at (agree-elim _ _ h) in
    (
      (λ n. (==_iff _ _).0 (sym same ∙ (is_none_iff _).1 n)),
      (λ i. (is_none_iff _).0 (same ∙ (==_iff _ _).1 i)),
    )
