-- ===== src/Listener/Messages.antt =====
-- `on_order_book_update`: what a message of an exchange does.
pub mod Effects
use crypto_crawler.Prelude.{
  ℕ, Bool, true, false, not, ◌&&◌, ◌||◌, Option, none, some, List, [], ◌∷◌, ◌++◌, ◌==◌,
  if◌then◌else◌,
}
use crypto_crawler.Currencies.ByExchange.{get_exchange_name_by_id}
use crypto_crawler.OrderBook.Insert.{Outcome, done, died, raised, ◌>>=◌}
use crypto_crawler.OrderBook.Book.{OrderBook, Delta}
use crypto_crawler.OrderBook.Update.{Status, success, failure, update}
use crypto_crawler.Listener.{
  Stage, unknown, before_sync, after_sync, resetting, Side, Listener, Which, buying, selling,
  side_of, set_side, update_max_volume_cap, no_max_cap_limit, shutdown_subscriptions,
}

-- The side that the number of an exchange stands for.
unfoldable pub which : ℕ → Listener → Which
which exchange_id self = if exchange_id == self.buy.exchange_id then buying else selling

-- `self.order_book_x.update(exchange_id, order_book_updates)`; `None` has no such method.
unfoldable pub update_side : Which → ℕ → Delta → Listener → Outcome (Status × Listener)
update_side w exchange_id delta self = elim (side_of w self).order_book [
  | none ↦ raised
  | some book ↦ update book exchange_id delta >>= λ (status, book').
      done (status, set_side w (record (side_of w self) { order_book = some book' }) self)
]

-- A failure disconnects both subscriptions; a success goes on.
unfoldable pub after_update : (Listener → Outcome Listener) → Status × Listener → Outcome Listener
unfolding shutdown_subscriptions
after_update next (success, self) = next self
after_update next (failure, self) = done (shutdown_subscriptions self)

-- `x_exchange_updates.put(order_book_updates)`
unfoldable pub enqueue : Which → Delta → Listener → Listener
enqueue w delta self =
    let side = side_of w self in
    set_side w (record side { exchange_updates = side.exchange_updates ++ (delta ∷ []) }) self

-- BEFORE_SYNC: a side that is synchronised is updated, otherwise its queue takes the message.
unfoldable pub before_sync_update : Which → ℕ → Delta → Listener → Outcome Listener
unfolding update_side after_update enqueue
before_sync_update w exchange_id delta self =
    if (side_of w self).order_book_synced
    then update_side w exchange_id delta self >>= after_update done
    else done (enqueue w delta self)

-- What follows a successful update AFTER_SYNC; the flag is `YES_I_KNOW_WHAT_AM_I_DOING`.
unfoldable pub live : Bool → Listener → Outcome Listener
live yes_i_know self =
    if not yes_i_know
    then died
    else done (record self { deal_cap = update_max_volume_cap self.deal_cap no_max_cap_limit })

-- What a message does at each stage.
unfoldable pub at_stage : Bool → ℕ → Delta → Listener → Stage → Outcome Listener
unfolding which before_sync_update update_side after_update live
at_stage yes_i_know exchange_id delta self unknown = done self
at_stage yes_i_know exchange_id delta self before_sync =
    before_sync_update (which exchange_id self) exchange_id delta self
at_stage yes_i_know exchange_id delta self after_sync =
    update_side (which exchange_id self) exchange_id delta self >>= after_update (live yes_i_know)
at_stage yes_i_know exchange_id delta self resetting = done self

-- A message that arrives while both subscriptions run; `none` is one that was not understood.
unfoldable pub received : Bool → ℕ → Option Delta → Listener → Outcome Listener
unfolding at_stage
received yes_i_know exchange_id none self = done self
received yes_i_know exchange_id (some delta) self =
    at_stage yes_i_know exchange_id delta self self.stage

unfoldable pub on_order_book_update : Bool → ℕ → Option Delta → Listener → Outcome Listener
unfolding received shutdown_subscriptions
on_order_book_update yes_i_know exchange_id order_book_updates self =
    elim (get_exchange_name_by_id exchange_id) [
      | none ↦ raised
      | some exchange_name ↦
          if not self.buy.running || not self.sell.running
          then done (shutdown_subscriptions self)
          else received yes_i_know exchange_id order_book_updates self
    ]
