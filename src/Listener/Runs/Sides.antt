-- ===== src/Listener/Runs/Sides.antt =====
-- What holds of each of the two sides, whatever its thread does.
pub mod Rounds
use crypto_crawler.Prelude.{
  ℕ, ◌≡◌, refl, subst, ◌⊎◌, inl, inr, Bool, true, false, ◌&&◌, Option, none, some, List, [], ◌∷◌,
  Bool-cases, Option-cases, sym, All, arith,
}
use crypto_crawler.OrderBook.Search.{before_ask, before_bid}
use crypto_crawler.OrderBook.Search.Rank.{IsSorted}
use crypto_crawler.OrderBook.Insert.{Outcome, done, died, raised, done-injective}
use crypto_crawler.OrderBook.Book.{OrderBook, Delta, new_order_book, sort_by_price}
use crypto_crawler.OrderBook.Insert.Refinement.{ask_order, bid_order}
use crypto_crawler.OrderBook.Book.Sort.{IsSorted-sorted}
use crypto_crawler.OrderBook.Update.{Status, success, failure, update}
use crypto_crawler.OrderBook.Update.Invariant.{IsOrdered, IsProper, update-IsOrdered}
use crypto_crawler.Listener.{Thread, fetching, draining, drained, ended, Side}
use crypto_crawler.Listener.Sync.{
  init_side, subscribe, sync_fetch, sync_failed, sync_updated, sync_round, sync_finish,
  binance_or_bittrex,
}
use crypto_crawler.Listener.Runs.{IsProperBook}

-- A book is there.
abbrev pub HasBook : Option OrderBook → Type 0
HasBook none = ⊥
HasBook (some book) = Unit

-- A book that is there is sorted.
abbrev pub IsSortedBook : Option OrderBook → Type 0
IsSortedBook none = Unit
IsSortedBook (some book) = IsOrdered book

-- A side that is synchronised has a book.
abbrev pub Synced : Bool → Option OrderBook → Type 0
Synced true book = HasBook book
Synced false book = Unit

-- A thread that has not ended belongs to a side that is not synchronised, and has a book after it
-- has fetched one.
abbrev pub ThreadHolds : Thread → Bool → Option OrderBook → Type 0
ThreadHolds fetching synced book = (synced ≡ false) × HasBook book
ThreadHolds draining synced book = (synced ≡ false) × HasBook book
ThreadHolds drained synced book = (synced ≡ false) × HasBook book
ThreadHolds ended synced book = Unit

pub record IsSound (s : Side) : Type 0 where
  pub book_sorted : IsSortedBook s.order_book
  pub queue_proper : All IsProper s.exchange_updates
  pub synced_holds : Synced s.order_book_synced s.order_book
  pub thread_holds : ThreadHolds s.thread s.order_book_synced s.order_book

-- A side that runs or stops, and is otherwise the same.
pub running-IsSound : (s : Side) (b : Bool) → IsSound s → IsSound (record s { running = b })
running-IsSound s b h = record {
  book_sorted = h.book_sorted;
  queue_proper = h.queue_proper;
  synced_holds = h.synced_holds;
  thread_holds = h.thread_holds;
}

new_order_book-empty :
    (p t e : ℕ) {book : OrderBook}
    → new_order_book p t [] [] e none ≡ some book
    → (book.ask ≡ []) × (book.bid ≡ [])
unfolding new_order_book
new_order_book-empty p t e h = ground arith

new_order_book-IsOrdered :
    (p t e : ℕ) {book : OrderBook} → new_order_book p t [] [] e none ≡ some book → IsOrdered book
new_order_book-IsOrdered p t e h =
    let (ask, bid) = new_order_book-empty p t e h in
    record {
      asks = subst (IsSorted before_ask) (sym ask) tt;
      bids = subst (IsSorted before_bid) (sym bid) tt;
    }

pub init_side-IsSound : (p t : ℕ) (s : Side) {s' : Side} → init_side p t s ≡ done s' → IsSound s'
unfolding init_side
init_side-IsSound p t s e = elim (Option-cases (new_order_book p t [] [] s.exchange_id none)) [
  | inl n ↦ let e' = rw (n, init_side) at e in absurd cc
  | inr (book, eq) ↦ subst IsSound (done-injective _ _ (rw (eq, init_side) at e)) (record {
    book_sorted = new_order_book-IsOrdered p t s.exchange_id eq;
    queue_proper = tt;
    synced_holds = tt;
    thread_holds = (refl, tt);
  })
]

-- What a step of a thread may do to a side.
abbrev pub Keeps : Side → Side → Type 0
Keeps s s' = IsSound s' × (s'.order_book_synced ≡ s.order_book_synced)

Keeps-done : (s a s' : Side) → Keeps s a → done a ≡ done s' → Keeps s s'
Keeps-done s a s' k e = subst (Keeps s) (done-injective a s' e) k

thread_at :
    (s : Side) {t : Thread}
    → s.thread ≡ t
    → IsSound s
    → ThreadHolds t s.order_book_synced s.order_book
thread_at s e h = subst (λ t. ThreadHolds t s.order_book_synced s.order_book) e h.thread_holds

-- A side with another book, in a state of its thread that needs no book.
unsynced-IsSound :
    (s : Side) (book : Option OrderBook)
    → s.order_book_synced ≡ false
    → IsSortedBook book
    → IsSound s
    → IsSound (record s { order_book = book; thread = ended })
unsynced-IsSound s book u sorted h = record {
  book_sorted = sorted;
  queue_proper = h.queue_proper;
  synced_holds = subst (λ b. Synced b book) (sym u) tt;
  thread_holds = tt;
}

pub subscribe-Keeps : (s : Side) {s' : Side} → IsSound s → subscribe s ≡ done s' → Keeps s s'
unfolding subscribe
subscribe-Keeps s h e = elim (Bool-cases s.running) [
  | inl dies ↦ let e' = rw (dies, subscribe) at e in absurd cc
  | inr runs ↦ Keeps-done s _ _ (running-IsSound s true h, refl) (rw (runs, subscribe) at e)
]

drained-Keeps :
    (s : Side)
    → (s.order_book_synced ≡ false) × HasBook s.order_book
    → IsSound s
    → Keeps s (record s { thread = drained })
drained-Keeps s at h = (
  record {
    book_sorted = h.book_sorted;
    queue_proper = h.queue_proper;
    synced_holds = h.synced_holds;
    thread_holds = at;
  },
  refl,
)

fetched-Keeps :
    (s : Side) (book : OrderBook)
    → IsProperBook (some book)
    → s.order_book_synced ≡ false
    → IsSound s
    → Keeps s (record s { order_book = some (sort_by_price book); thread = draining })
unfolding sort_by_price
fetched-Keeps s book p u h = (
  record {
    book_sorted = record {
      asks = IsSorted-sorted before_ask ask_order book.ask p.0;
      bids = IsSorted-sorted before_bid bid_order book.bid p.1;
    };
    queue_proper = h.queue_proper;
    synced_holds = subst (λ b. Synced b (some (sort_by_price book))) (sym u) tt;
    thread_holds = (u, tt);
  },
  refl,
)

pub sync_fetch-Keeps :
    (book : Option OrderBook) (s : Side)
    → IsProperBook book
    → s.thread ≡ fetching
    → IsSound s
    → Keeps s (sync_fetch book s)
unfolding sync_fetch
sync_fetch-Keeps none s p e h =
    let (u, has) = thread_at s e h in
    elim (Bool-cases (binance_or_bittrex s.exchange_id)) [
      | inl b ↦ rw b (unsynced-IsSound s none u tt h, refl)
      | inr nb ↦ rw nb (drained-Keeps s (u, has) h)
    ]
sync_fetch-Keeps (some book) s p e h =
    let (u, has) = thread_at s e h in
    elim (Bool-cases (binance_or_bittrex s.exchange_id)) [
      | inl b ↦ rw b (fetched-Keeps s book p u h)
      | inr nb ↦ rw nb (drained-Keeps s (u, has) h)
    ]

pub sync_finish-IsSound : (s : Side) → s.thread ≡ drained → IsSound s → IsSound (sync_finish s)
unfolding sync_finish
sync_finish-IsSound s th h = record {
  book_sorted = h.book_sorted;
  queue_proper = h.queue_proper;
  synced_holds = (thread_at s th h).1;
  thread_holds = tt;
}

pub sync_finish-synced : (s : Side) → (sync_finish s).order_book_synced ≡ true
unfolding sync_finish
sync_finish-synced s = refl

Synced-some : (synced : Bool) (book : OrderBook) → Synced synced (some book)
Synced-some true book = tt
Synced-some false book = tt

ThreadHolds-some :
    (t : Thread) (synced : Bool) (book book' : OrderBook)
    → ThreadHolds t synced (some book)
    → ThreadHolds t synced (some book')
ThreadHolds-some fetching synced book book' h = h
ThreadHolds-some draining synced book book' h = h
ThreadHolds-some drained synced book book' h = h
ThreadHolds-some ended synced book book' h = h

-- A side with another book in place of the one that it has.
pub replaced_book-IsSound :
    (s : Side) {book : OrderBook} (book' : OrderBook)
    → s.order_book ≡ some book
    → IsOrdered book'
    → IsSound s
    → IsSound (record s { order_book = some book' })
replaced_book-IsSound s {book = book} book' there sorted h = record {
  book_sorted = sorted;
  queue_proper = h.queue_proper;
  synced_holds = Synced-some s.order_book_synced book';
  thread_holds =
      ThreadHolds-some s.thread s.order_book_synced book book'
        (subst (ThreadHolds s.thread s.order_book_synced) there h.thread_holds);
}
