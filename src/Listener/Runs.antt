-- ===== src/Listener/Runs.antt =====
-- The steps of the listener's threads, and the states that they reach.
pub mod Sides
pub mod Valid
pub mod Delivery
pub mod Invariant
use crypto_crawler.Prelude.{ℕ, ◌≡◌, Bool, false, ◌&&◌, Option, none, some, List}
use crypto_crawler.OrderBook.Insert.{Outcome, done}
use crypto_crawler.OrderBook.Book.{OrderBook, Delta}
use crypto_crawler.OrderBook.Book.Sort.{IsDistinct}
use crypto_crawler.OrderBook.Update.Invariant.{IsProper}
use crypto_crawler.Listener.{
  Stage, before_sync, Thread, fetching, draining, drained, ended, Side, Listener, Which, side_of,
  set_side, new_listener,
}
use crypto_crawler.Listener.Sync.{init_reset, subscribe, sync_fetch, sync_round, sync_finish, join}
use crypto_crawler.Listener.Messages.{on_order_book_update}

-- A book that `get_order_book` returns quotes no price twice on a side.
abbrev pub IsProperBook : Option OrderBook → Type 0
IsProperBook none = Unit
IsProperBook (some book) = IsDistinct book.ask × IsDistinct book.bid

-- A message that a socket delivers is proper; one that was not understood is `None`.
abbrev pub IsProperMessage : Option Delta → Type 0
IsProperMessage none = Unit
IsProperMessage (some delta) = IsProper delta

-- `start` resets when neither subscription runs, and the two threads of the last synchronisation
-- have been joined.
pub record CanReset (l : Listener) : Type 0 where
  pub buy_stopped : l.buy.running ≡ false
  pub sell_stopped : l.sell.running ≡ false
  pub buy_ended : l.buy.thread ≡ ended
  pub sell_ended : l.sell.thread ≡ ended

-- What the threads do: the main one resets and joins, one of each subscription subscribes, delivers
-- messages and stops, and one for each side synchronises.
pub data Step (yes_i_know : Bool) (l : Listener) : Listener → Type 0 where
  resets :
      {l' : Listener} (cur_timest_sec : ℕ)
      → CanReset l
      → init_reset cur_timest_sec l ≡ done l'
      → Step yes_i_know l l'
  subscribes :
      {side : Side} (w : Which)
      → subscribe (side_of w l) ≡ done side
      → Step yes_i_know l (set_side w side l)
  stops : (w : Which) → Step yes_i_know l (set_side w (record (side_of w l) { running = false }) l)
  fetches :
      (w : Which) (book : Option OrderBook)
      → IsProperBook book
      → (side_of w l).thread ≡ fetching
      → Step yes_i_know l (set_side w (sync_fetch book (side_of w l)) l)
  drains :
      {side : Side} (w : Which)
      → (side_of w l).thread ≡ draining
      → sync_round (l.buy.running && l.sell.running) (side_of w l) ≡ done side
      → Step yes_i_know l (set_side w side l)
  finishes :
      (w : Which)
      → (side_of w l).thread ≡ drained
      → Step yes_i_know l (set_side w (sync_finish (side_of w l)) l)
  joins :
      l.stage ≡ before_sync
      → l.buy.thread ≡ ended
      → l.sell.thread ≡ ended
      → Step yes_i_know l (join l)
  delivers :
      {l' : Listener} (exchange_id : ℕ) (order_book_updates : Option Delta)
      → IsProperMessage order_book_updates
      → on_order_book_update yes_i_know exchange_id order_book_updates l ≡ done l'
      → Step yes_i_know l l'

-- The states of a run from `ArbitrageListener(cfg, app_settings)` on.
pub data Reach (yes_i_know : Bool) (pair_id buy_exchange_id sell_exchange_id timest : ℕ)
    : Listener → Type 0 where
  starts :
      Reach yes_i_know pair_id buy_exchange_id sell_exchange_id timest
        (new_listener pair_id buy_exchange_id sell_exchange_id timest)
  steps :
      {l l' : Listener}
      → Reach yes_i_know pair_id buy_exchange_id sell_exchange_id timest l
      → Step yes_i_know l l'
      → Reach yes_i_know pair_id buy_exchange_id sell_exchange_id timest l'
