-- ===== src/Orders/Protocol.antt =====
-- The order of the effects of the two services (core/expired_order.py, core/failed_order.py), as the
-- runs of a machine: the part that the two share.
pub mod Expired
pub mod Failed
use crypto_crawler.Prelude.{
  ℤ, ltb_ℤ, ◌≡◌, ◌⊎◌, inl, inr, refl, Bool, true, false, sym, subst, All, Option, none, some, ◌>>=◌,
  List, [], ◌∷◌, if-elim, arith,
}
use crypto_crawler.OrderBook.Insert.{Outcome, done, died, raised}
use crypto_crawler.OrderBook.Book.{OrderBook}
use crypto_crawler.Precision.Interface.{Decimals}
use crypto_crawler.Balances.{Balance, balance_expired}
use crypto_crawler.Orders.{
  Trade, Effect, Run, cancel, place, watch, save, fail, update_details, emit, finish, raise,
}
use crypto_crawler.Orders.Volume.{compute_min_cap_from_ticker}
use crypto_crawler.Orders.Placing.{
  Answer, refused, unreadable, accepted, Readings, after_init, market_volume, place_volume,
  place_order_by_market_rate,
}
use crypto_crawler.Orders.Market.{
  Market, balance_expired_threshold, is_order_book_expired, market_price, with_balance,
  with_fresh_book, with_book, with_cap, with_ticker, replace_by_market,
}

-- Where an order is: it stands at the exchange, the exchange has refused to cancel it, it is not at the
-- exchange, it is sent, it is handed over to be saved, or it is in a queue of the services. A failed
-- order may be found among the open orders or in the history, and then its details are written.
pub data Stage : Type 0 where
  standing refusing absent sent saved queued : Stage
  found_open found_past open_written past_written : Stage

abbrev pub after_request : Bool → Stage
after_request true = absent
after_request false = refusing

-- The effects that each stage allows.
abbrev pub advance : Stage → Effect → Option Stage
advance standing (cancel c o) = some (after_request c)
advance standing (watch o) = some queued
advance refusing (watch o) = some queued
advance absent (place o) = some sent
advance absent (watch o) = some queued
advance absent (fail o) = some queued
advance sent (save o) = some saved
advance saved (watch o) = some queued
advance found_open (update_details o) = some open_written
advance open_written (watch o) = some queued
advance found_past (update_details o) = some past_written
advance _ _ = none

-- At which stages a call may end: where it returns not with an order that is sent, or that the exchange
-- refuses to cancel, and is in no queue, and not with one that is found among the open orders and in no
-- queue; where it raises not with one that is saved and in no queue; the process dies only with an order
-- that is not at the exchange; and the details of an order that is found are always written.
abbrev pub EndsAt : Outcome Trade → Stage → Type 0
EndsAt (done o) sent = ⊥
EndsAt (done o) saved = ⊥
EndsAt (done o) refusing = ⊥
EndsAt (done o) found_open = ⊥
EndsAt (done o) found_past = ⊥
EndsAt (done o) open_written = ⊥
EndsAt (done o) _ = Unit
EndsAt raised saved = ⊥
EndsAt raised refusing = ⊥
EndsAt raised found_open = ⊥
EndsAt raised found_past = ⊥
EndsAt raised open_written = ⊥
EndsAt raised past_written = ⊥
EndsAt raised _ = Unit
EndsAt died absent = Unit
EndsAt died _ = ⊥

-- The stage after some effects; `none` where one of them is not allowed.
abbrev pub trace : Stage → List Effect → Option Stage
trace s [] = some s
trace s (e ∷ es) = do s' ← advance s e; trace s' es

abbrev pub Ends : Outcome Trade → Option Stage → Type 0
Ends outcome none = ⊥
Ends outcome (some s) = EndsAt outcome s

abbrev pub order_of : Effect → Trade
order_of (cancel c o) = o
order_of (place o) = o
order_of (watch o) = o
order_of (save o) = o
order_of (fail o) = o
order_of (update_details o) = o

-- The same order, with other numbers.
abbrev pub SameOrder : Trade → Trade → Type 0
SameOrder a b =
    (b.trade_type ≡ a.trade_type)
    × (b.exchange_id ≡ a.exchange_id)
    × (b.pair_id ≡ a.pair_id)
    × (b.arbitrage_id ≡ a.arbitrage_id)

-- Whether anything may be sent.
abbrev pub Allowed : Bool → Effect → Type 0
Allowed b (place o) = b ≡ true
Allowed b (save o) = b ≡ true
Allowed b _ = Unit

-- The effects follow the machine from a stage on, to one where the call may end, and they are all
-- about the one order and allowed.
abbrev pub Accounted : Bool → Trade → Stage → Run → Type 0
Accounted b a s run =
    Ends run.0 (trace s run.1) × All (λ e. SameOrder a (order_of e) × Allowed b e) run.1

-- Orders may be sent, or `init` ends the process instead.
abbrev pub Sends : Bool → (Trade → Outcome Answer) → Type 0
Sends b init = (o : Trade) → (b ≡ true) ⊎ (init o ≡ died)

after_init-Accounted :
    (a : Trade) (clock : Readings) (book : OrderBook) (o : Trade) (answer : Outcome Answer)
    → SameOrder a o
    → Accounted true a absent (after_init clock book o answer)
unfolding after_init
after_init-Accounted a clock book o died h = (tt, tt)
after_init-Accounted a clock book o raised h = (tt, tt)
after_init-Accounted a clock book o (done refused) h = (tt, ((h, refl), tt))
after_init-Accounted a clock book o (done unreadable) h = (tt, ((h, refl), tt))
after_init-Accounted a clock book o (done (accepted id)) h =
    (tt, ((h, refl), ((h, refl), ((h, tt), tt))))

module _ (d : Decimals) (init : Trade → Outcome Answer) (a : Trade) (b : Bool)
    (sends : Sends b init) where
  init-Accounted :
      (clock : Readings) (book : OrderBook) (o : Trade)
      → SameOrder a o
      → Accounted b a absent (after_init clock book o (init o))
  unfolding after_init
  init-Accounted clock book o h = elim (sends o) [
    | inl may ↦ rw may (after_init-Accounted a clock book o (init o) h)
    | inr dead ↦ rw dead (tt, tt)
  ]

  place_volume-Accounted :
      (clock : Readings) (o : Trade) (min : ℤ) (book : OrderBook) (v : Option ℤ)
      → SameOrder a o
      → Accounted b a absent (place_volume d init clock o min book v)
  unfolding place_volume
  place_volume-Accounted clock o min book none h = (tt, tt)
  place_volume-Accounted clock o min book (some v) h =
      if-elim (Accounted b a absent) (ltb_ℤ v min) _ _ (tt, tt) (init-Accounted clock book _ h)

  module _ (market : Market) (requeue : Trade → Effect)
      (queues : (o : Trade) → advance absent (requeue o) ≡ some queued)
      (keeps : (o : Trade) → order_of (requeue o) ≡ o)
      (allowed : (o : Trade) → Allowed b (requeue o)) where
    kept : (o : Trade) → SameOrder a o → SameOrder a (order_of (requeue o))
    kept o h = subst (SameOrder a) (sym (keeps o)) h

    requeued_finish :
        (o : Trade) → SameOrder a o → Accounted b a absent (emit (requeue o) (finish o))
    requeued_finish o h = (rw (queues o) tt, ((kept o h, allowed o), tt))

    requeued_raise : (o : Trade) → SameOrder a o → Accounted b a absent (emit (requeue o) raise)
    requeued_raise o h = (rw (queues o) tt, ((kept o h, allowed o), tt))

    with_balance-Accounted :
        (o : Trade) (min : ℤ) (book : OrderBook) (c : Option Balance)
        → SameOrder a o
        → Accounted b a absent (with_balance d init market requeue o min book c)
    unfolding with_balance place_order_by_market_rate
    with_balance-Accounted o min book none h = (tt, tt)
    with_balance-Accounted o min book (some c) h =
        if-elim (Accounted b a absent)
          (balance_expired c market.clock.balance_checked balance_expired_threshold)
          (emit (requeue o) raise) (place_order_by_market_rate d init market.clock o min c book)
          (requeued_raise o h)
          (place_volume-Accounted market.clock o min book (market_volume d o c) h)

    with_fresh_book-Accounted :
        (o : Trade) (min : ℤ) (book : OrderBook) (fresh : Outcome Bool)
        → SameOrder a o
        → Accounted b a absent (with_fresh_book d init market requeue o min book fresh)
    unfolding with_fresh_book
    with_fresh_book-Accounted o min book died h = (tt, tt)
    with_fresh_book-Accounted o min book raised h = (tt, tt)
    with_fresh_book-Accounted o min book (done true) h = requeued_finish o h
    with_fresh_book-Accounted o min book (done false) h =
        with_balance-Accounted _ min book market.balance h

    with_book-Accounted :
        (o : Trade) (min : ℤ) (book : Option OrderBook)
        → SameOrder a o
        → Accounted b a absent (with_book d init market requeue o min book)
    unfolding with_book
    with_book-Accounted o min none h = requeued_finish o h
    with_book-Accounted o min (some book) h = with_fresh_book-Accounted o min book _ h

    with_cap-Accounted :
        (o : Trade) (min : Option ℤ)
        → SameOrder a o
        → Accounted b a absent (with_cap d init market requeue o min)
    unfolding with_cap
    with_cap-Accounted o none h = (tt, tt)
    with_cap-Accounted o (some min) h = with_book-Accounted o min market.order_book h

    with_ticker-Accounted :
        (o : Trade) (ask : Option ℤ)
        → SameOrder a o
        → Accounted b a absent (with_ticker d init market requeue o ask)
    unfolding with_ticker
    with_ticker-Accounted o none h = requeued_finish o h
    with_ticker-Accounted o (some ask) h = with_cap-Accounted o _ h

    pub replace_by_market-Accounted :
        (o : Trade)
        → SameOrder a o
        → Accounted b a absent (replace_by_market d init market requeue o)
    unfolding replace_by_market
    replace_by_market-Accounted o h = with_ticker-Accounted o market.ticker h
