-- ===== src/Listener/Messages/Effects.antt =====
-- What a message may change, and how it ends once the books are synchronised.
use crypto_crawler.Prelude.{
  ℕ, ◌≡◌, refl, sym, subst, ◌⊎◌, inl, inr, Bool, false, not, ◌||◌, Option, some, if-cases,
  Option-cases,
}
use crypto_crawler.Currencies.ByExchange.{get_exchange_name_by_id}
use crypto_crawler.OrderBook.Insert.{done, >>=-eq-done, done-injective}
use crypto_crawler.OrderBook.Book.{Delta}
use crypto_crawler.OrderBook.Update.{Status, success, failure}
use crypto_crawler.Listener.{after_sync, Side, Listener, shutdown_subscriptions}
use crypto_crawler.Listener.Messages.{
  which, update_side, after_update, live, at_stage, received, on_order_book_update,
}

-- The two ways for a message of a known exchange to be taken.
message-cases :
    (go : Bool) (x : ℕ) (updates : Option Delta) (l : Listener) {l' : Listener}
    → on_order_book_update go x updates l ≡ done l'
    → (l' ≡ shutdown_subscriptions l) ⊎ (received go x updates l ≡ done l')
unfolding on_order_book_update
message-cases go x updates l e = elim (Option-cases (get_exchange_name_by_id x)) [
  | inl n ↦ let e' = rw (n, on_order_book_update) at e in absurd cc
  | inr (name, eq) ↦
      elim (if-cases (not l.buy.running || not l.sell.running) _ _
        (rw (eq, on_order_book_update) at e)) [
          | inl (stopped, e') ↦ inl (sym (done-injective _ _ e'))
          | inr (running, e') ↦ inr e'
        ]
]

-- Neither subscription runs.
abbrev pub IsStopped : Listener → Type 0
IsStopped l = (l.buy.running ≡ false) × (l.sell.running ≡ false)

shutdown-IsStopped : (l : Listener) → IsStopped (shutdown_subscriptions l)
unfolding shutdown_subscriptions
shutdown-IsStopped l = (refl, refl)

live_update-IsStopped :
    (r : Status × Listener) {l' : Listener} → after_update (live false) r ≡ done l' → IsStopped l'
unfolding after_update live
live_update-IsStopped (success, l) e = absurd cc
live_update-IsStopped (failure, l) e = subst IsStopped (done-injective _ _ e) (shutdown-IsStopped l)

at_after_sync-IsStopped :
    (x : ℕ) (delta : Delta) (l : Listener) {l' : Listener}
    → at_stage false x delta l after_sync ≡ done l'
    → IsStopped l'
unfolding at_stage
at_after_sync-IsStopped x delta l e =
    let (r, went, e') = >>=-eq-done (update_side (which x l) x delta l) _ e in
    live_update-IsStopped r e'

-- With `YES_I_KNOW_WHAT_AM_I_DOING` false, as it is, a message that is understood and arrives after
-- the synchronisation ends the process or raises, or else both subscriptions are stopped.
pub on_order_book_update-IsStopped :
    (exchange_id : ℕ) (delta : Delta) (l : Listener) {l' : Listener}
    → l.stage ≡ after_sync
    → on_order_book_update false exchange_id (some delta) l ≡ done l'
    → IsStopped l'
unfolding received
on_order_book_update-IsStopped x delta l {l' = l'} st e =
    elim (message-cases false x (some delta) l e) [
      | inl stopped ↦ subst IsStopped (sym stopped) (shutdown-IsStopped l)
      | inr taken ↦
          at_after_sync-IsStopped x delta l
            (subst (λ s. at_stage false x delta l s ≡ done l') st taken)
    ]

-- All of a side but its subscription is the same.
abbrev pub IsUntouched : Side → Side → Type 0
IsUntouched s s' =
    (s'.exchange_id ≡ s.exchange_id)
    × (s'.order_book ≡ s.order_book)
    × (s'.order_book_synced ≡ s.order_book_synced)
    × (s'.exchange_updates ≡ s.exchange_updates)
    × (s'.thread ≡ s.thread)
