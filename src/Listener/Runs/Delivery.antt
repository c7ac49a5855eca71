-- ===== src/Listener/Runs/Delivery.antt =====
-- `on_order_book_update` keeps what is to hold in every state.
use crypto_crawler.Prelude.{
  ℕ, ◌≡◌, subst, inl, inr, Bool, true, false, not, ◌||◌, Option, none, some, List, [], ◌∷◌, ◌++◌,
  Bool-cases, if-cases, Option-cases, All,
}
use crypto_crawler.OrderBook.Insert.{Outcome, done, >>=-eq-done, done-injective}
use crypto_crawler.OrderBook.Book.{Delta}
use crypto_crawler.OrderBook.Update.{Status, success, failure, update}
use crypto_crawler.OrderBook.Update.Invariant.{IsProper, update-IsOrdered, snd-done}
use crypto_crawler.Currencies.ByExchange.{get_exchange_name_by_id}
use crypto_crawler.Listener.{
  Stage, unknown, before_sync, after_sync, resetting, Side, Listener, Which, side_of,
}
use crypto_crawler.Listener.Messages.{
  which, update_side, after_update, before_sync_update, live, enqueue, at_stage, received,
  on_order_book_update,
}
use crypto_crawler.Listener.Runs.{IsProperMessage}
use crypto_crawler.Listener.Runs.Sides.{IsSortedBook, IsSound, replaced_book-IsSound}
use crypto_crawler.Listener.Runs.Valid.{
  IsValid, set_side-IsValid, side_of-IsSound, shutdown-IsValid,
}

update_side-IsValid :
    (w : Which) (exchange_id : ℕ) (delta : Delta) (l : Listener) {st : Status} {l' : Listener}
    → IsProper delta
    → IsValid l
    → update_side w exchange_id delta l ≡ done (st, l')
    → IsValid l'
unfolding update_side
update_side-IsValid w exchange_id delta l p h e = elim (Option-cases (side_of w l).order_book) [
  | inl n ↦ let e' = rw (n, update_side) at e in absurd cc
  | inr (book, there) ↦
      let side = side_of-IsSound w l h in
      let ((st, book'), went, e') =
        >>=-eq-done (update book exchange_id delta) _ (rw (there, update_side) at e) in
      let ordered =
        update-IsOrdered book exchange_id delta (subst IsSortedBook there side.book_sorted) p
          went in
      subst IsValid (snd-done _ _ _ _ e') (
        set_side-IsValid w _ l h (replaced_book-IsSound (side_of w l) book' there ordered side)
          (λ k. k))
]

after_update-IsValid :
    (next : Listener → Outcome Listener) (r : Status × Listener) {l' : Listener}
    → IsValid r.1
    → ((l : Listener) → IsValid l → next l ≡ done l' → IsValid l')
    → after_update next r ≡ done l'
    → IsValid l'
unfolding after_update
after_update-IsValid next (success, l) h k e = k l h e
after_update-IsValid next (failure, l) h k e =
    subst IsValid (done-injective _ _ e) (shutdown-IsValid l h)

live-IsValid :
    (go : Bool) (l : Listener) {l' : Listener} → IsValid l → live go l ≡ done l' → IsValid l'
unfolding live
live-IsValid true l h e =
    subst IsValid (done-injective _ _ e)
      (record { buy_sound = h.buy_sound; sell_sound = h.sell_sound; stage_holds = h.stage_holds })
live-IsValid false l h e = absurd cc

All-append :
    (P : Delta → Type 0) (xs : List Delta) (x : Delta) → All P xs → P x → All P (xs ++ (x ∷ []))
All-append P [] x h p = (p, tt)
All-append P (y ∷ ys) x h p = (h.0, All-append P ys x h.1 p)

queued-IsSound :
    (s : Side) (d : Delta)
    → IsProper d
    → IsSound s
    → IsSound (record s { exchange_updates = s.exchange_updates ++ (d ∷ []) })
queued-IsSound s d p h = record {
  book_sorted = h.book_sorted;
  queue_proper = All-append IsProper s.exchange_updates d h.queue_proper p;
  synced_holds = h.synced_holds;
  thread_holds = h.thread_holds;
}

enqueue-IsValid :
    (w : Which) (delta : Delta) (l : Listener)
    → IsProper delta
    → IsValid l
    → IsValid (enqueue w delta l)
unfolding enqueue
enqueue-IsValid w delta l p h =
    set_side-IsValid w _ l h (queued-IsSound (side_of w l) delta p (side_of-IsSound w l h)) (λ k. k)

before_sync_update-IsValid :
    (w : Which) (exchange_id : ℕ) (delta : Delta) (l : Listener) {l' : Listener}
    → IsProper delta
    → IsValid l
    → before_sync_update w exchange_id delta l ≡ done l'
    → IsValid l'
unfolding before_sync_update
before_sync_update-IsValid w exchange_id delta l p h e =
    elim (if-cases (side_of w l).order_book_synced _ _ e) [
      | inl (synced, e1) ↦
          let ((st, l1), went, e') = >>=-eq-done (update_side w exchange_id delta l) _ e1 in
          after_update-IsValid done (st, l1) (update_side-IsValid w exchange_id delta l p h went)
            (λ l2 h2 e2. subst IsValid (done-injective _ _ e2) h2) e'
      | inr (not_yet, e1) ↦ subst IsValid (done-injective _ _ e1) (enqueue-IsValid w delta l p h)
    ]

-- A message at each stage, when both subscriptions run.
at_stage-IsValid :
    (go : Bool) (exchange_id : ℕ) (delta : Delta) (l : Listener) (stage : Stage) {l' : Listener}
    → IsProper delta
    → IsValid l
    → at_stage go exchange_id delta l stage ≡ done l'
    → IsValid l'
unfolding at_stage
at_stage-IsValid go x delta l unknown p h e = subst IsValid (done-injective _ _ e) h
at_stage-IsValid go x delta l resetting p h e = subst IsValid (done-injective _ _ e) h
at_stage-IsValid go x delta l before_sync p h e =
    before_sync_update-IsValid (which x l) x delta l p h e
at_stage-IsValid go x delta l after_sync p h e =
    let ((st, l1), went, e') = >>=-eq-done (update_side (which x l) x delta l) _ e in
    after_update-IsValid (live go) (st, l1) (update_side-IsValid (which x l) x delta l p h went)
      (λ l2 h2 e2. live-IsValid go l2 h2 e2) e'

received-IsValid :
    (go : Bool) (exchange_id : ℕ) (updates : Option Delta) (l : Listener) {l' : Listener}
    → IsProperMessage updates
    → IsValid l
    → received go exchange_id updates l ≡ done l'
    → IsValid l'
unfolding received
received-IsValid go x none l p h e = subst IsValid (done-injective _ _ e) h
received-IsValid go x (some delta) l p h e = at_stage-IsValid go x delta l l.stage p h e

pub message-IsValid :
    (go : Bool) (exchange_id : ℕ) (updates : Option Delta) (l : Listener) {l' : Listener}
    → IsProperMessage updates
    → IsValid l
    → on_order_book_update go exchange_id updates l ≡ done l'
    → IsValid l'
unfolding on_order_book_update
message-IsValid go x updates l p h e = elim (Option-cases (get_exchange_name_by_id x)) [
  | inl n ↦ let e' = rw (n, on_order_book_update) at e in absurd cc
  | inr (name, eq) ↦ elim (Bool-cases (not l.buy.running || not l.sell.running)) [
    | inl stopped ↦
        subst IsValid (done-injective _ _ (rw (eq, stopped, on_order_book_update) at e))
          (shutdown-IsValid l h)
    | inr running ↦
        received-IsValid go x updates l p h (rw (eq, running, on_order_book_update) at e)
  ]
]
