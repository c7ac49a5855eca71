-- ===== src/Listener/Runs/Sides/Rounds.antt =====
-- A round of the loop of `update_from_queue` on one side.
use crypto_crawler.Prelude.{
  ◌≡◌, refl, subst, ◌⊎◌, inl, inr, Bool, true, false, some, List, [], ◌∷◌, Option-cases, sym, All,
}
use crypto_crawler.OrderBook.Insert.{Outcome, done, died, raised}
use crypto_crawler.OrderBook.Book.{OrderBook, Delta}
use crypto_crawler.OrderBook.Update.{Status, success, failure, update}
use crypto_crawler.OrderBook.Update.Invariant.{IsOrdered, IsProper, update-IsOrdered}
use crypto_crawler.Listener.{draining, Side}
use crypto_crawler.Listener.Sync.{sync_failed, sync_updated, sync_round}
use crypto_crawler.Listener.Runs.Sides.{
  HasBook, IsSortedBook, Synced, ThreadHolds, IsSound, Keeps, Keeps-done, thread_at,
  unsynced-IsSound, drained-Keeps,
}

sync_failed-Keeps : (s : Side) → s.order_book_synced ≡ false → IsSound s → Keeps s (sync_failed s)
unfolding sync_failed
sync_failed-Keeps s u h = (
  record {
    book_sorted = h.book_sorted;
    queue_proper = h.queue_proper;
    synced_holds = tt;
    thread_holds = tt;
  },
  sym u,
)

-- A side with another book that is sorted.
book-IsSound :
    (s : Side) (book : OrderBook)
    → s.order_book_synced ≡ false
    → s.thread ≡ draining
    → IsOrdered book
    → IsSound s
    → IsSound (record s { order_book = some book })
book-IsSound s book u th sorted h = record {
  book_sorted = sorted;
  queue_proper = h.queue_proper;
  synced_holds = subst (λ b. Synced b (some book)) (sym u) tt;
  thread_holds = subst (λ t. ThreadHolds t s.order_book_synced (some book)) (sym th) (u, tt);
}

sync_updated-Keeps :
    (s : Side) (r : Outcome (Status × OrderBook)) {s' : Side}
    → ((status : Status) (book : OrderBook) → r ≡ done (status, book) → IsOrdered book)
    → s.order_book_synced ≡ false
    → s.thread ≡ draining
    → IsSound s
    → sync_updated s r ≡ done s'
    → Keeps s s'
unfolding sync_updated
sync_updated-Keeps s (done (success, book)) k u th h e =
    Keeps-done s _ _ (book-IsSound s book u th (k success book refl) h, refl) e
sync_updated-Keeps s (done (failure, book)) k u th h e =
    Keeps-done s _ _
      (sync_failed-Keeps (record s { order_book = some book }) u
        (book-IsSound s book u th (k failure book refl) h))
      e
sync_updated-Keeps s died k u th h e = absurd cc
sync_updated-Keeps s raised k u th h e =
    Keeps-done s _ _ (unsynced-IsSound s s.order_book u h.book_sorted h, refl) e

-- The side without the first message of its queue.
rest-IsSound :
    (s : Side) (d : Delta) (ds : List Delta)
    → s.exchange_updates ≡ d ∷ ds
    → IsSound s
    → IsProper d × IsSound (record s { exchange_updates = ds })
rest-IsSound s d ds e h =
    let proper = subst (All IsProper) e h.queue_proper in
    (
      proper.0,
      record {
        book_sorted = h.book_sorted;
        queue_proper = proper.1;
        synced_holds = h.synced_holds;
        thread_holds = h.thread_holds;
      },
    )

List-cases {ℓ} : {A : Type ℓ} (xs : List A) → (xs ≡ []) ⊎ ((x : A) × (ys : List A) × (xs ≡ x ∷ ys))
List-cases [] = inl refl
List-cases (x ∷ xs) = inr (x, xs, refl)

pub sync_round-Keeps :
    (both : Bool) (s : Side) {s' : Side}
    → s.thread ≡ draining
    → IsSound s
    → sync_round both s ≡ done s'
    → Keeps s s'
unfolding sync_round
sync_round-Keeps false s th h e = Keeps-done s _ _ (sync_failed-Keeps s (thread_at s th h).0 h) e
sync_round-Keeps true s th h e =
    let (u, has) = thread_at s th h in
    elim (List-cases s.exchange_updates) [
      | inl none_left ↦
          Keeps-done s _ _ (drained-Keeps s (u, has) h) (rw (none_left, sync_round) at e)
      | inr (d, ds, eq) ↦
          let (p, sound) = rest-IsSound s d ds eq h in
          let rest : Side = record s { exchange_updates = ds } in
          elim (Option-cases s.order_book) [
            | inl n ↦ absurd (subst HasBook n has)
            | inr (book, there) ↦
                sync_updated-Keeps rest (update book s.exchange_id d)
                  (λ status b went.
                    update-IsOrdered book s.exchange_id d (subst IsSortedBook there h.book_sorted) p
                      went)
                  u th sound (rw (eq, there, sync_round) at e)
          ]
    ]
