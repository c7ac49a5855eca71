-- ===== src/Balances/Parsed/Laws.antt =====
-- The currencies of what `Balance.from_*` give (data/balance.py).
use crypto_crawler.Prelude.{
  ℕ, ℤ, pos, ◌≡◌, refl, ap, inr, Option, none, some, ◌>>=◌, List, All, ◌∙◌,
}
use crypto_crawler.Enums.Currency
use crypto_crawler.Enums.Exchange
use crypto_crawler.Enums.Exchange.{Exchange}
use crypto_crawler.Currencies.Poloniex.Currencies.{get_currency_name_for_poloniex}
use crypto_crawler.Currencies.Kraken.Currencies.{get_currency_name_for_kraken}
use crypto_crawler.Currencies.Bittrex.Currencies.{get_currency_name_for_bittrex}
use crypto_crawler.Currencies.Binance.Currencies.{get_currency_name_for_binance}
use crypto_crawler.Currencies.Huobi.Currencies.{get_currency_name_for_huobi}
use crypto_crawler.Sockets.{Json, get_field, iterate, contains}
use crypto_crawler.Balances.{Balance, get_balance}
use crypto_crawler.Balances.Parsed.Dicts.{
  Volumes, set_available, set_total, no_volumes, for_each_currency, balance_of, get_key, has_key,
  is_name,
}
use crypto_crawler.Balances.Parsed.{
  poloniex_entry, poloniex_named, poloniex_currency, from_poloniex, kraken_found, kraken_volume,
  kraken_currency, from_kraken, bittrex_found, bittrex_balance_entry, bittrex_currency,
  from_bittrex, binance_found, binance_balance_entry, binance_currency, from_binance, huobi_found,
  huobi_balance_entry, huobi_currency, from_huobi,
}
use crypto_crawler.Balances.Parsed.Covered.{
  IfDone, result, IfDone-eq, in_turn-returns, >>=-IfDone, >>=-IfDone-then, if-IfDone, Among, IsFrom,
  Keeps, set_available-Keeps, in_turn-Keeps, Covers, zero-Covers, Keeps-Covers, AllCovered,
  for_each_currency-AllCovered,
}
use crypto_crawler.Balances.Parsed.Sources.{
  InPoloniex, InKraken, InBittrex, InBinance, InHuobi, kraken_volume-InKraken,
}

-- Each currency of the program has an available volume, which is zero or comes from some place.
abbrev pub IsCovered : (ℕ → ℤ → Type 0) → Balance → Type 0
IsCovered Read b =
    All (λ c. (x : ℤ) × (get_balance b (Currency.id c) ≡ some x) × IsFrom Read (Currency.id c) x)
      Currency.values

module _ (to_decimal : Json → Option ℤ) (doc : Json) where
  poloniex_named-Keeps :
      (n : ℕ) (v : Volumes)
      → IfDone (Keeps (InPoloniex to_decimal doc) v) (poloniex_named to_decimal doc n v)
  unfolding poloniex_named poloniex_entry
  poloniex_named-Keeps n v =
      >>=-IfDone (get_key doc (get_currency_name_for_poloniex n)) (λ entry here.
        >>=-IfDone (get_field entry "available") (λ available at.
          >>=-IfDone (to_decimal available) (λ volume read.
            >>=-IfDone (get_field entry "onOrders") (λ on_orders _.
              >>=-IfDone (to_decimal on_orders) (λ locked_volume _. result (
                set_available-Keeps (InPoloniex to_decimal doc) n volume v
                  (inr (entry, here, (available, at, read)))))))))

  poloniex_currency-Covers :
      (n : ℕ) (v : Volumes)
      → IfDone (Covers (InPoloniex to_decimal doc) n v) (poloniex_currency to_decimal doc n v)
  unfolding poloniex_currency
  poloniex_currency-Covers n v =
      let Read = InPoloniex to_decimal doc in
      let w = set_available n (pos 0) v in
      >>=-IfDone (has_key doc (get_currency_name_for_poloniex n)) (λ named _.
        if-IfDone named
          (λ _. Keeps-Covers Read n v w (zero-Covers Read n v) (poloniex_named-Keeps n w))
          (λ _. result (zero-Covers Read n v)))

  kraken_found-Keeps :
      (n : ℕ) (found : Option (Option ℤ)) (v : Volumes)
      → ((x : ℤ) → found ≡ some (some x) → InKraken to_decimal doc n x)
      → Keeps (InKraken to_decimal doc) v (kraken_found to_decimal n found v)
  unfolding kraken_found
  kraken_found-Keeps n none v read m h = h
  kraken_found-Keeps n (some none) v read m h = h
  kraken_found-Keeps n (some (some x)) v read m h =
      set_available-Keeps (InKraken to_decimal doc) n x v (inr (read x refl)) m h

  kraken_currency-Covers :
      (n : ℕ) (v : Volumes)
      → IfDone (Covers (InKraken to_decimal doc) n v) (kraken_currency to_decimal doc n v)
  unfolding kraken_currency
  kraken_currency-Covers n v =
      let Read = InKraken to_decimal doc in
      let w = set_available n (pos 0) v in
      Keeps-Covers Read n v w (zero-Covers Read n v)
        (result (kraken_found-Keeps n _ w (kraken_volume-InKraken to_decimal doc n)))

  bittrex_balance_entry-Keeps :
      (n : ℕ) (v : Volumes) {entries : List Json} (all : iterate doc ≡ some entries) (entry : Json)
      → Among entry entries
      → IfDone (Keeps (InBittrex to_decimal doc) v) (bittrex_balance_entry to_decimal n entry v)
  unfolding bittrex_balance_entry bittrex_found
  bittrex_balance_entry-Keeps n v all entry among =
      >>=-IfDone (get_field entry "Currency") (λ currency here.
        if-IfDone (is_name (get_currency_name_for_bittrex n) currency)
          (λ named. >>=-IfDone (get_field entry "Balance") (λ balance _.
            >>=-IfDone (to_decimal balance) (λ total _.
              >>=-IfDone (get_field entry "Available") (λ free at.
                >>=-IfDone (to_decimal free) (λ volume read. result (
                  set_available-Keeps (InBittrex to_decimal doc) n volume v
                    (inr (_, entry, all, among, ((currency, here, named), (free, at, read))))))))))
          (λ _. result (λ m h. h)))

  bittrex_currency-Covers :
      (n : ℕ) (v : Volumes)
      → IfDone (Covers (InBittrex to_decimal doc) n v) (bittrex_currency to_decimal doc n v)
  unfolding bittrex_currency
  bittrex_currency-Covers n v =
      let Read = InBittrex to_decimal doc in
      let w = set_available n (pos 0) (set_total n (pos 0) v) in
      >>=-IfDone (iterate doc) (λ entries all. Keeps-Covers Read n v w (zero-Covers Read n v) (
        in_turn-Keeps Read _ entries
          (λ entry among u. bittrex_balance_entry-Keeps n u all entry among) w))

  binance_balance_entry-Keeps :
      (n : ℕ) (v : Volumes) {entries : List Json}
      (all : (get_field doc "balances" >>= iterate) ≡ some entries) (entry : Json)
      → Among entry entries
      → IfDone (Keeps (InBinance to_decimal doc) v) (binance_balance_entry to_decimal n entry v)
  unfolding binance_balance_entry binance_found
  binance_balance_entry-Keeps n v all entry among =
      >>=-IfDone (get_field entry "asset") (λ asset here.
        if-IfDone (is_name (get_currency_name_for_binance n) asset)
          (λ named. >>=-IfDone (get_field entry "free") (λ free at.
            >>=-IfDone (to_decimal free) (λ volume read.
              >>=-IfDone (get_field entry "locked") (λ locked _.
                >>=-IfDone (to_decimal locked) (λ locked_volume _. result (
                  set_available-Keeps (InBinance to_decimal doc) n volume v
                    (inr (_, entry, all, among, ((asset, here, named), (free, at, read))))))))))
          (λ _. result (λ m h. h)))

  binance_currency-Covers :
      (n : ℕ) (v : Volumes)
      → IfDone (Covers (InBinance to_decimal doc) n v) (binance_currency to_decimal doc n v)
  unfolding binance_currency
  binance_currency-Covers n v =
      let Read = InBinance to_decimal doc in
      let w = set_available n (pos 0) v in
      >>=-IfDone (get_field doc "balances") (λ balances at.
        >>=-IfDone (iterate balances) (λ entries all.
          Keeps-Covers Read n v w (zero-Covers Read n v) (
            in_turn-Keeps Read _ entries
              (λ entry among u. binance_balance_entry-Keeps n u (rw at all) entry among) w)))

  huobi_balance_entry-Keeps :
      (n : ℕ) (v : Volumes) {entries : List Json}
      (all : (get_field doc "list" >>= iterate) ≡ some entries) (entry : Json)
      → Among entry entries
      → IfDone (Keeps (InHuobi to_decimal doc) v) (huobi_balance_entry to_decimal n entry v)
  unfolding huobi_balance_entry huobi_found
  huobi_balance_entry-Keeps n v all entry among =
      >>=-IfDone (get_field entry "currency") (λ currency here.
        if-IfDone (is_name (get_currency_name_for_huobi n) currency)
          (λ named. >>=-IfDone (get_field entry "balance") (λ balance at.
            >>=-IfDone (to_decimal balance) (λ volume read.
              >>=-IfDone (get_field entry "type") (λ ty typed.
                >>=-IfDone (contains ty "frozen") (λ frozen known.
                  if-IfDone frozen (λ _. result (λ m h. h))
                    (λ free. result (
                      set_available-Keeps (InHuobi to_decimal doc) n volume v (
                        inr (
                          _,
                          entry,
                          all,
                          among,
                          (
                            (currency, here, named),
                            (balance, at, read),
                            (ty, typed, known ∙ ap (λ b. some b) free),
                          ),
                        )))))))))
          (λ _. result (λ m h. h)))

  huobi_currency-Covers :
      (n : ℕ) (v : Volumes)
      → IfDone (Covers (InHuobi to_decimal doc) n v) (huobi_currency to_decimal doc n v)
  unfolding huobi_currency
  huobi_currency-Covers n v =
      let Read = InHuobi to_decimal doc in
      let w = set_available n (pos 0) v in
      >>=-IfDone (get_field doc "list") (λ balances at.
        >>=-IfDone (iterate balances) (λ entries all.
          Keeps-Covers Read n v w (zero-Covers Read n v) (
            in_turn-Keeps Read _ entries
              (λ entry among u. huobi_balance_entry-Keeps n u (rw at all) entry among) w)))

  kraken-returns :
      (last_update : ℕ)
      → (b : Balance) × (from_kraken to_decimal last_update doc ≡ some b)
        × IsCovered (InKraken to_decimal doc) b
  unfolding from_kraken get_balance for_each_currency kraken_currency
  kraken-returns last_update =
      let (v, e) =
        in_turn-returns
          (λ c u.
            kraken_found to_decimal (Currency.id c)
              (kraken_volume to_decimal doc (get_currency_name_for_kraken (Currency.id c)))
              (set_available (Currency.id c) (pos 0) u))
          Currency.values no_volumes in
      let k = IfDone-eq (AllCovered (InKraken to_decimal doc) Currency.values) e (
        for_each_currency-AllCovered (InKraken to_decimal doc) (kraken_currency to_decimal doc)
          kraken_currency-Covers) in
      let b =
        balance_of (Exchange.id Exchange.kraken) last_update (record v { total = v.available }) in
      (
        b,
        ap
            (λ o. o >>= (λ u. some (
              balance_of (Exchange.id Exchange.kraken) last_update
                (record u { total = u.available }))))
            e,
        k,
      )

  -- From Kraken a balance is read always, and from the others unless there is an exception.
  abbrev pub ReadsAll : ℕ → Type 0
  ReadsAll last_update =
      ((b : Balance) × (from_kraken to_decimal last_update doc ≡ some b)
        × IsCovered (InKraken to_decimal doc) b)
      × IfDone (IsCovered (InPoloniex to_decimal doc)) (from_poloniex to_decimal last_update doc)
      × IfDone (IsCovered (InBittrex to_decimal doc)) (from_bittrex to_decimal last_update doc)
      × IfDone (IsCovered (InBinance to_decimal doc)) (from_binance to_decimal last_update doc)
      × IfDone (IsCovered (InHuobi to_decimal doc)) (from_huobi to_decimal last_update doc)

  -- From Kraken, whatever the document is, a balance is read. In it, and in each balance that is read
  -- from one of the four other exchanges, every currency of the program has an available volume,
  -- which is zero or a number that stands in the document for this currency: the value of its name
  -- at Kraken, the `available` of this at Poloniex, and at Bittrex, Binance and Huobi the `Available`,
  -- the `free` or the `balance` of an entry with its name, at Huobi of one that is not frozen.
  pub from_json-ReadsAll : (last_update : ℕ) → ReadsAll last_update
  unfolding from_poloniex from_bittrex from_binance from_huobi get_balance
  from_json-ReadsAll last_update = (
    kraken-returns last_update,
    >>=-IfDone-then (for_each_currency-AllCovered _ _ poloniex_currency-Covers) (λ v k. result k),
    >>=-IfDone-then (for_each_currency-AllCovered _ _ bittrex_currency-Covers) (λ v k. result k),
    >>=-IfDone-then (for_each_currency-AllCovered _ _ binance_currency-Covers) (λ v k. result k),
    >>=-IfDone-then (for_each_currency-AllCovered _ _ huobi_currency-Covers) (λ v k. result k),
  )
