-- ===== src/OrderBook/Update/Sequence.antt =====
-- What a run of changes says of the sequence numbers: `update` in the loop of `update_from_queue`
-- (services/arbitrage_between_pair_subscription.py), at the exchanges that number single changes.
use crypto_crawler.Prelude.{
  ℕ, ◌+◌, ◌≤◌, ◌<◌, ◌≡◌, refl, sym, ◌∙◌, ◌⊎◌, inl, inr, true, false, Option, some, List, [], ◌∷◌,
  ◌==◌, Bool-cases, ==_iff, arith, All, ap, subst,
}
use crypto_crawler.OrderBook.Insert.{
  Outcome, done, died, raised, ◌>>=◌, >>=-eq-done, done-injective,
}
use crypto_crawler.OrderBook.Book.{OrderBook, OrderBookUpdate, Delta, change}
use crypto_crawler.OrderBook.Update.Invariant.{snd-done}
use crypto_crawler.OrderBook.Update.{
  Status, success, failure, insert_asks, insert_bids, apply_orders, apply_fills, Order, outdated,
  in_order, gap, compare_sequence, by_sequence, update_for_poloniex, update_for_bittrex,
  update_for_binance,
}

-- Changes one after another, until one is a failure.
unfoldable pub apply_changes :
    (OrderBook → Delta → Outcome (Status × OrderBook))
    → List OrderBookUpdate
    → OrderBook
    → Outcome (Status × OrderBook)
apply_changes method [] book = done (success, book)
apply_changes method (u ∷ us) book = method book (change u) >>= λ (st, book'). elim st [
  | success ↦ apply_changes method us book'
  | failure ↦ done (failure, book')
]

-- Some change has the number.
abbrev pub HasSequence : ℕ → List OrderBookUpdate → Type 0
HasSequence n [] = ⊥
HasSequence n (u ∷ us) = (u.sequence_id ≡ n) ⊎ HasSequence n us

-- The two ways for one change to go well.
abbrev pub Advances : (OrderBook → Delta → Outcome (Status × OrderBook)) → Type 0
Advances method =
    (book : OrderBook) (u : OrderBookUpdate) (s : ℕ) (book' : OrderBook)
    → book.sequence_id ≡ some s
    → method book (change u) ≡ done (success, book')
    → ((u.sequence_id ≤ s) × (book' ≡ book))
      ⊎ ((u.sequence_id ≡ s + 1) × (book'.sequence_id ≡ some (s + 1)))

-- The loops leave the number alone.
apply_orders-sequence :
    (u : OrderBookUpdate) (book : OrderBook) {book' : OrderBook}
    → apply_orders u book ≡ done book'
    → book'.sequence_id ≡ book.sequence_id
unfolding apply_orders
apply_orders-sequence u book e =
    let (ask, ea, e') = >>=-eq-done (insert_asks u.ask true book.ask) _ e in
    let (bid, eb, e'') = >>=-eq-done (insert_bids u.bid true book.bid) _ e' in
    subst (λ b. b.sequence_id ≡ book.sequence_id) (done-injective _ _ e'') refl

apply_fills-sequence :
    (u : OrderBookUpdate) (book : OrderBook) {book' : OrderBook}
    → apply_fills u book ≡ done book'
    → book'.sequence_id ≡ book.sequence_id
unfolding apply_fills
apply_fills-sequence u book e =
    let (ask, ea, e') = >>=-eq-done (insert_asks u.trades_sell false book.ask) _ e in
    let (bid, eb, e'') = >>=-eq-done (insert_bids u.trades_buy false book.bid) _ e' in
    subst (λ b. b.sequence_id ≡ book.sequence_id) (done-injective _ _ e'') refl

pub by_sequence-success :
    (book : OrderBook) (order : Outcome Order) (applied : Outcome OrderBook) (book' : OrderBook)
    → by_sequence book order applied ≡ done (success, book')
    → ((order ≡ done outdated) × (book' ≡ book))
      ⊎ ((order ≡ done in_order) × (applied ≡ done book'))
unfolding by_sequence
by_sequence-success book (done outdated) applied book' h = inl (refl, sym (snd-done _ _ _ _ h))
by_sequence-success book (done gap) applied book' h = cc
by_sequence-success book (done in_order) applied book' h =
    let (b, eb, e) = >>=-eq-done applied _ h in inr (refl, eb ∙ ap done (snd-done _ _ _ _ e))
by_sequence-success book died applied book' h = cc
by_sequence-success book raised applied book' h = cc

pub outdated-le : (s n : ℕ) → compare_sequence (some s) (some n) ≡ done outdated → n ≤ s
unfolding compare_sequence
outdated-le s n h = ground arith

in_order-eq : (s n : ℕ) → compare_sequence (some s) (some n) ≡ done in_order → n ≡ s + 1
unfolding compare_sequence
in_order-eq s n h = ground arith

success_advances :
    (book : OrderBook) (n s : ℕ) (applied : Outcome OrderBook) (book' : OrderBook)
    → book.sequence_id ≡ some s
    → (applied ≡ done book' → book'.sequence_id ≡ some n)
    → by_sequence book (compare_sequence book.sequence_id (some n)) applied ≡ done (success, book')
    → ((n ≤ s) × (book' ≡ book)) ⊎ ((n ≡ s + 1) × (book'.sequence_id ≡ some (s + 1)))
success_advances book n s applied book' e k h =
    let order = compare_sequence book.sequence_id (some n) in
    elim (by_sequence-success book order applied book' h) [
      | inl (o, same) ↦ inl (outdated-le s n (rw e at o), same)
      | inr (o, went) ↦ let next = in_order-eq s n (rw e at o) in inr (next, k went ∙ ap some next)
    ]

bittrex-Advances : Advances update_for_bittrex
unfolding update_for_bittrex
bittrex-Advances book u s book' e = success_advances book u.sequence_id s _ book' e λ went.
    let (mid, em, ef) = >>=-eq-done (apply_orders u _) (apply_fills u) went in
    apply_fills-sequence u mid ef ∙ apply_orders-sequence u _ em

poloniex-Advances : Advances update_for_poloniex
unfolding update_for_poloniex
poloniex-Advances book u s book' e =
    success_advances book u.sequence_id s _ book' e (apply_orders-sequence u _)

-- The last number is reached with no gap: each number up to it was received, and none beyond it.
abbrev pub IsGapless : ℕ → List OrderBookUpdate → Option ℕ → Type 0
IsGapless s us last =
    (e : ℕ) × (last ≡ some e)
    × (s ≤ e)
    × ((n : ℕ) → s < n → n ≤ e → HasSequence n us)
    × All (λ u. u.sequence_id ≤ e) us

nothing_missed : (s : ℕ) (last : Option ℕ) → last ≡ some s → IsGapless s [] last
nothing_missed s last e = (s, e, omega arith, λ n below above. absurd (omega arith), tt)

-- A change in front that is outdated, or that has the next number.
outdated_first :
    (s : ℕ) (u : OrderBookUpdate) (us : List OrderBookUpdate) (last : Option ℕ)
    → u.sequence_id ≤ s
    → IsGapless s us last
    → IsGapless s (u ∷ us) last
outdated_first s u us last h (e, le, up, seen, all) =
    (e, le, up, λ n below above. inr (seen n below above), (omega arith, all))

next_first :
    (s : ℕ) (u : OrderBookUpdate) (us : List OrderBookUpdate) (last : Option ℕ)
    → u.sequence_id ≡ s + 1
    → IsGapless (s + 1) us last
    → IsGapless s (u ∷ us) last
next_first s u us last h (e, le, up, seen, all) =
    let number : (n : ℕ) → s < n → n ≤ e → HasSequence n (u ∷ us) = λ n below above.
      elim (Bool-cases (n == s + 1)) [
        | inl hit ↦ inl (h ∙ sym ((==_iff _ _).0 hit))
        | inr miss ↦ inr (seen n (ground arith) above)
      ] in
    (e, le, omega arith, number, (omega arith, all))

-- What is left of a run of changes that goes well.
after-eq-success :
    (method : OrderBook → Delta → Outcome (Status × OrderBook)) (us : List OrderBookUpdate)
    (st : Status) (mid : OrderBook) {book' : OrderBook}
    → ◌≡◌ {A = Outcome (Status × OrderBook)}
        (elim st [ success ↦ apply_changes method us mid | failure ↦ done (failure, mid) ])
        (done (success, book'))
    → (st ≡ success) × (apply_changes method us mid ≡ done (success, book'))
after-eq-success method us success mid h = (refl, h)
after-eq-success method us failure mid h = absurd cc

module _ (method : OrderBook → Delta → Outcome (Status × OrderBook))
    (advances : Advances method) where
  apply_changes-IsGapless :
      (us : List OrderBookUpdate) (book : OrderBook) (s : ℕ) {book' : OrderBook}
      → book.sequence_id ≡ some s
      → apply_changes method us book ≡ done (success, book')
      → IsGapless s us book'.sequence_id
  unfolding apply_changes
  apply_changes-IsGapless [] book s e h =
      nothing_missed s _ (subst (λ b. b.sequence_id ≡ some s) (snd-done _ _ _ _ h) e)
  apply_changes-IsGapless (u ∷ us) book s {book' = book'} e h =
      let ((st, mid), first, rest) = >>=-eq-done (method book (change u)) _ h in
      let went = after-eq-success method us st mid rest in
      elim (advances book u s mid e (first ∙ ap (λ t. done (t, mid)) went.0)) [
        | inl (le, same) ↦ outdated_first s u us _ le (
            apply_changes-IsGapless us mid s (subst (λ b. b.sequence_id ≡ some s) (sym same) e)
              went.1)
        | inr (next, number) ↦
            next_first s u us _ next (apply_changes-IsGapless us mid (s + 1) number went.1)
      ]

-- When `update_for_bittrex` takes a list of changes with no failure, from a book with the number s on,
-- it ends at a number that is at least s, every number after s up to it was among the changes, and
-- no change had a greater one.
pub update_for_bittrex-IsGapless :
    (us : List OrderBookUpdate) (book : OrderBook) (s : ℕ) {book' : OrderBook}
    → book.sequence_id ≡ some s
    → apply_changes update_for_bittrex us book ≡ done (success, book')
    → IsGapless s us book'.sequence_id
update_for_bittrex-IsGapless us book s =
    apply_changes-IsGapless update_for_bittrex bittrex-Advances us book s

-- When `update_for_poloniex` takes a list of changes with no failure, from a book with the number s
-- on, it ends at a number that is at least s, every number after s up to it was among the changes,
-- and no change had a greater one.
pub update_for_poloniex-IsGapless :
    (us : List OrderBookUpdate) (book : OrderBook) (s : ℕ) {book' : OrderBook}
    → book.sequence_id ≡ some s
    → apply_changes update_for_poloniex us book ≡ done (success, book')
    → IsGapless s us book'.sequence_id
update_for_poloniex-IsGapless us book s =
    apply_changes-IsGapless update_for_poloniex poloniex-Advances us book s

-- Events that follow one another from a number on, without a gap.
abbrev pub Follows : ℕ → List OrderBookUpdate → Type 0
Follows e [] = Unit
Follows e (u ∷ us) =
    (u.sequence_id ≡ e + 1)
    × (last : ℕ) × (u.sequence_id_end ≡ some last)
    × (e < last)
    × Follows last us

outdated-ignored :
    (book : OrderBook) (u : OrderBookUpdate) (s : ℕ)
    → book.sequence_id ≡ some s
    → u.sequence_id ≤ s
    → update_for_binance book (change u) ≡ done (success, book)
unfolding update_for_binance by_sequence compare_sequence
outdated-ignored book u s k le = ground arith

gap-fails :
    (book : OrderBook) (u : OrderBookUpdate) (s : ℕ)
    → book.sequence_id ≡ some s
    → s + 1 < u.sequence_id
    → update_for_binance book (change u) ≡ done (failure, book)
unfolding update_for_binance by_sequence compare_sequence
gap-fails book u s k lt = ground arith

following-fail :
    (book : OrderBook) (s e : ℕ) (us : List OrderBookUpdate)
    → book.sequence_id ≡ some s
    → s < e
    → Follows e us
    → All (λ v. update_for_binance book (change v) ≡ done (failure, book)) us
following-fail book s e [] k lt h = tt
following-fail book s e (v ∷ vs) k lt (first, last, ends, up, rest) = (
  gap-fails book v s k (omega (arith, first, lt)),
  following-fail book s last vs k (omega (arith, lt, up)) rest,
)

-- At Binance an event has the numbers from `sequence_id` to `sequence_id_end`. When the book's own
-- number is one of the event's, before its last, the event is ignored with a success and leaves the
-- book as it is; and then every event that follows it without a gap, however many there are and
-- whichever orders they have, is a failure on this book: it does not recover by itself.
pub update_for_binance-straddled :
    (book : OrderBook) (u : OrderBookUpdate) (us : List OrderBookUpdate) (s e : ℕ)
    → book.sequence_id ≡ some s
    → u.sequence_id ≤ s
    → u.sequence_id_end ≡ some e
    → s < e
    → Follows e us
    → (update_for_binance book (change u) ≡ done (success, book))
      × All (λ v. update_for_binance book (change v) ≡ done (failure, book)) us
update_for_binance-straddled book u us s e k le ends lt follows =
    (outdated-ignored book u s k le, following-fail book s e us k lt follows)
