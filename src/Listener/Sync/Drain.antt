-- ===== src/Listener/Sync/Drain.antt =====
-- The loop of `update_from_queue`, left alone: it ends, and what a side has taken in by then.
use crypto_crawler.Prelude.{
  ℕ, zero, suc, ◌≡◌, ◌≢◌, refl, sym, ap, subst, true, some, List, [], ◌∷◌, length, map, All,
}
use crypto_crawler.Enums.Exchange
use crypto_crawler.Enums.Exchange.{Exchange}
use crypto_crawler.OrderBook.Insert.{Outcome, done, died, raised, ◌>>=◌, done-injective}
use crypto_crawler.OrderBook.Book.{OrderBook, OrderBookUpdate, Delta, change}
use crypto_crawler.OrderBook.Update.{Status, success, failure, update}
use crypto_crawler.OrderBook.Update.Fills.{HasNoAskFill, update-ne-died}
use crypto_crawler.OrderBook.Update.Sequence.{
  apply_changes, IsGapless, update_for_bittrex-IsGapless,
}
use crypto_crawler.Listener.{fetching, draining, drained, ended, Side}
use crypto_crawler.Listener.Sync.{sync_failed, sync_updated, sync_round}

-- Rounds while both subscriptions run, until the loop is left.
unfoldable pub run_rounds : ℕ → Side → Outcome Side
unfolding sync_round
run_rounds zero side = done side
run_rounds (suc fuel) side = sync_round true side >>= λ s.
    let rest = run_rounds fuel s in
    elim s.thread [ fetching ↦ done s | draining ↦ rest | drained ↦ done s | ended ↦ done s ]

-- A side in its loop, with a book and the messages that wait.
abbrev pub in_loop : Side → OrderBook → List Delta → Side
in_loop side book queue = record side {
  order_book = some book;
  exchange_updates = queue;
  thread = draining;
}

-- A loop that is left, in either way.
abbrev pub Ends : Outcome Side → Type 0
Ends (done side) = side.thread ≢ draining
Ends died = ⊥
Ends raised = ⊥

-- What follows a round.
abbrev next_round : ℕ → Side → Outcome Side
next_round fuel s =
    let rest = run_rounds fuel s in
    elim s.thread [ fetching ↦ done s | draining ↦ rest | drained ↦ done s | ended ↦ done s ]

updated-Ends :
    (fuel : ℕ) (side : Side) (book : OrderBook) (ds : List Delta) (r : Outcome (Status × OrderBook))
    → r ≢ died
    → ((b : OrderBook) → Ends (run_rounds fuel (in_loop side b ds)))
    → Ends (sync_updated (in_loop side book ds) r >>= next_round fuel)
unfolding sync_updated sync_failed
updated-Ends fuel side book ds (done (success, b)) ne ih = ih b
updated-Ends fuel side book ds (done (failure, b)) ne ih = λ d. cc
updated-Ends fuel side book ds died ne ih = ne refl
updated-Ends fuel side book ds raised ne ih = λ d. cc

-- While both subscriptions run and nothing is put into the queue: when no message that waits
-- reports a fill of an ask, a round for each message and one for the empty queue are enough for the
-- loop to be left, at its end, by a failure or by an exception, and the process goes on.
pub run_rounds-Ends :
    (side : Side) (book : OrderBook) (queue : List Delta)
    → All HasNoAskFill queue
    → Ends (run_rounds (suc (length queue)) (in_loop side book queue))
unfolding run_rounds
run_rounds-Ends side book [] h = λ d. cc
run_rounds-Ends side book (d ∷ ds) h =
    updated-Ends (suc (length ds)) side book ds (update book side.exchange_id d)
      (update-ne-died book side.exchange_id d h.0) (λ b. run_rounds-Ends side b ds h.1)

-- When a loop ends with its queue drained, the changes that waited have all been successes, one after
-- another.
abbrev pub HasTaken : Side → OrderBook → List OrderBookUpdate → Side → Type 0
HasTaken side book us side' =
    (book' : OrderBook) × (side'.order_book ≡ some book')
    × (side'.exchange_updates ≡ [])
    × (apply_changes (λ b. update b side.exchange_id) us book ≡ done (success, book'))

updated-HasTaken :
    (fuel : ℕ) (side : Side) (book : OrderBook) (u : OrderBookUpdate) (us : List OrderBookUpdate)
    (r : Outcome (Status × OrderBook)) {side' : Side}
    → update book side.exchange_id (change u) ≡ r
    → ((b : OrderBook)
        → run_rounds fuel (in_loop side b (map change us)) ≡ done side'
        → HasTaken side b us side')
    → (sync_updated (in_loop side book (map change us)) r >>= next_round fuel) ≡ done side'
    → side'.thread ≡ drained
    → HasTaken side book (u ∷ us) side'
unfolding sync_updated sync_failed apply_changes
updated-HasTaken fuel side book u us (done (success, b)) eq ih e th =
    let (book', there, empty, went) = ih b e in (book', there, empty, rw eq went)
updated-HasTaken fuel side book u us (done (failure, b)) eq ih e th =
    let ended_too = ap (λ s. s.thread) (done-injective _ _ e) in absurd cc
updated-HasTaken fuel side book u us died eq ih e th = absurd cc
updated-HasTaken fuel side book u us raised eq ih e th =
    let ended_too = ap (λ s. s.thread) (done-injective _ _ e) in absurd cc

run_rounds-HasTaken :
    (side : Side) (book : OrderBook) (us : List OrderBookUpdate) {side' : Side}
    → run_rounds (suc (length us)) (in_loop side book (map change us)) ≡ done side'
    → side'.thread ≡ drained
    → HasTaken side book us side'
unfolding run_rounds apply_changes
run_rounds-HasTaken side book [] e th =
    let same = done-injective _ _ e in
    (book, ap (λ s. s.order_book) (sym same), ap (λ s. s.exchange_updates) (sym same), refl)
run_rounds-HasTaken side book (u ∷ us) e th =
    updated-HasTaken (suc (length us)) side book u us (update book side.exchange_id (change u)) refl
      (λ b went. run_rounds-HasTaken side b us went th) e th

-- At Bittrex, when `update_from_queue` has drained a queue of changes into a book with the sequence
-- number s, the side has a book whose number is at least s, every number after s up to it was in
-- the queue, none in the queue is greater, and nothing waits.
pub update_from_queue-IsGapless :
    (side : Side) (book : OrderBook) (us : List OrderBookUpdate) (s : ℕ) {side' : Side}
    → side.exchange_id ≡ Exchange.id Exchange.bittrex
    → book.sequence_id ≡ some s
    → run_rounds (suc (length us)) (in_loop side book (map change us)) ≡ done side'
    → side'.thread ≡ drained
    → (book' : OrderBook) × (side'.order_book ≡ some book')
      × (side'.exchange_updates ≡ [])
      × IsGapless s us book'.sequence_id
unfolding update Exchange.id
update_from_queue-IsGapless side book us s x number e th =
    let (book', there, empty, went) = run_rounds-HasTaken side book us e th in
    let at_bittrex =
      subst (λ n. apply_changes (λ b. update b n) us book ≡ done (success, book')) x went in
    (book', there, empty, update_for_bittrex-IsGapless us book s number at_bittrex)
