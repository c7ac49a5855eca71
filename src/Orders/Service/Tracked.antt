-- ===== src/Orders/Service/Tracked.antt =====
-- The services lose track of orders but never multiply them.
use crypto_crawler.Prelude.{
  ℕ, ◌+◌, ◌≤◌, ◌≡◌, refl, ap, subst, Option, none, some, List, [], ◌∷◌, ◌++◌, length, All, true,
  arith, >>=-eq-some,
}
use crypto_crawler.OrderBook.Insert.{Outcome}
use crypto_crawler.Precision.Interface.{Decimals}
use crypto_crawler.Orders.{Trade, Effect, cancel, place, watch, save, fail, update_details, Run}
use crypto_crawler.Orders.Placing.{Answer}
use crypto_crawler.Orders.Market.{Market}
use crypto_crawler.Orders.Expired.{Venue}
use crypto_crawler.Orders.Failed.{process_failed_order}
use crypto_crawler.Orders.Protocol.Expired.{process_expired_order-Accounted}
use crypto_crawler.Orders.Protocol.Failed.{Accounts, process_failed_order-Accounts}
use crypto_crawler.Orders.Protocol.{
  Stage, standing, queued, advance, trace, Ends, Accounted, SameOrder, Allowed, order_of,
}
use crypto_crawler.Orders.Service.{
  effects_of, Queues, apply_effect, apply_effects, expired_round, expired_taken, failed_round,
  failed_taken, saving_round, saved_taken, get_oldest_order, get_next_order, Rounds, start, expired,
  failing, saving,
}

-- How many orders the two services have.
abbrev pub tracked : Queues → ℕ
tracked q = length q.watched + length q.failed

-- What an effect adds to them, and what the effects from a stage on may add.
abbrev adds : Effect → ℕ
adds (watch o) = 1
adds (fail o) = 1
adds _ = 0

abbrev total : List Effect → ℕ
total [] = 0
total (e ∷ es) = adds e + total es

abbrev room : Stage → ℕ
room queued = 0
room _ = 1

advance-room :
    (s : Stage) (e : Effect) {s' : Stage} → advance s e ≡ some s' → adds e + room s' ≤ room s
advance-room s e h = ground arith

trace-room : (s : Stage) (es : List Effect) {s' : Stage} → trace s es ≡ some s' → total es ≤ room s
trace-room s [] h = omega arith
trace-room s (e ∷ es) h =
    let (s1, first, rest) = >>=-eq-some (advance s e) _ h in
    omega (arith, advance-room s e first, trace-room s1 es rest)

length-snoc : (xs : List Trade) (x : Trade) → length (xs ++ x ∷ []) ≡ length xs + 1
length-snoc [] x = refl
length-snoc (y ∷ ys) x = omega (arith, length-snoc ys x)

tracked-apply_effect : (e : Effect) (q : Queues) → tracked (apply_effect e q) ≡ tracked q + adds e
unfolding apply_effect
tracked-apply_effect (cancel c o) q = omega arith
tracked-apply_effect (place o) q = omega arith
tracked-apply_effect (watch o) q = omega (arith, length-snoc q.watched o)
tracked-apply_effect (save o) q = omega arith
tracked-apply_effect (fail o) q = omega arith
tracked-apply_effect (update_details o) q = omega arith

tracked-apply_effects :
    (es : List Effect) (q : Queues) → tracked (apply_effects es q) ≡ tracked q + total es
unfolding apply_effects
tracked-apply_effects [] q = omega arith
tracked-apply_effects (e ∷ es) q =
    omega (arith, tracked-apply_effects es (apply_effect e q), tracked-apply_effect e q)

Ends-some :
    (outcome : Outcome Trade) (s : Option Stage) → Ends outcome s → (s' : Stage) × (s ≡ some s')
Ends-some outcome none h = absurd h
Ends-some outcome (some s') h = (s', refl)

room-most : (s : Stage) → room s ≤ 1
room-most s = ground arith

-- A call takes one order and queues at most one.
total-Accounted : (a : Trade) (s : Stage) (run : Run) → Accounted true a s run → total run.1 ≤ 1
total-Accounted a s run (ends, same) =
    let (s', reached) = Ends-some run.0 (trace s run.1) ends in
    omega (arith, trace-room s run.1 reached, room-most s)

-- Every order of the two services is one of some kind.
abbrev pub AllTracked : (Trade → Type 0) → Queues → Type 0
AllTracked P q = All P q.watched × All P q.failed

All-snoc :
    (P : Trade → Type 0) (xs : List Trade) (x : Trade) → All P xs → P x → All P (xs ++ x ∷ [])
All-snoc P [] x h p = (p, tt)
All-snoc P (y ∷ ys) x (h, hs) p = (h, All-snoc P ys x hs p)

module _ (P : Trade → Type 0) where
  apply_effect-AllTracked :
      (e : Effect) (q : Queues) → P (order_of e) → AllTracked P q → AllTracked P (apply_effect e q)
  unfolding apply_effect
  apply_effect-AllTracked (cancel c o) q p h = h
  apply_effect-AllTracked (place o) q p h = h
  apply_effect-AllTracked (watch o) q p h = (All-snoc P q.watched o h.0 p, h.1)
  apply_effect-AllTracked (save o) q p h = h
  apply_effect-AllTracked (fail o) q p h = (h.0, (p, h.1))
  apply_effect-AllTracked (update_details o) q p h = h

  apply_effects-AllTracked :
      (closed : (a b : Trade) → P a → SameOrder a b → P b) (a : Trade) (es : List Effect)
      (q : Queues)
      → P a
      → All (λ e. SameOrder a (order_of e) × Allowed true e) es
      → AllTracked P q
      → AllTracked P (apply_effects es q)
  unfolding apply_effects
  apply_effects-AllTracked closed a [] q p same h = h
  apply_effects-AllTracked closed a (e ∷ es) q p (same, rest) h =
      apply_effects-AllTracked closed a es (apply_effect e q) p rest
        (apply_effect-AllTracked e q (closed a _ p same.0) h)

-- A round keeps what is true of every order, and does not add to them.
abbrev pub Keeps : (Trade → Type 0) → Queues → Queues → Type 0
Keeps P q q' = AllTracked P q' × (tracked q' ≤ tracked q)

saved_taken-Keeps :
    (P : Trade → Type 0) (taken : Option (Trade × List Trade)) (q : Queues)
    → AllTracked P q
    → Keeps P q (saved_taken taken q)
unfolding saved_taken
saved_taken-Keeps P none q h = (h, omega arith)
saved_taken-Keeps P (some (o, queue)) q h = (h, omega arith)

module _ (P : Trade → Type 0) (closed : (a b : Trade) → P a → SameOrder a b → P b) (d : Decimals)
    (init : Trade → Outcome Answer) where
  effects-Keeps :
      (a : Trade) (s : Stage) (run : Run) (q q0 : Queues)
      → Accounted true a s run
      → P a
      → AllTracked P q
      → tracked q + 1 ≡ tracked q0
      → Keeps P q0 (apply_effects run.1 q)
  effects-Keeps a s run q q0 acc p h size = (
    apply_effects-AllTracked P closed a run.1 q p acc.1 h,
    omega (arith, tracked-apply_effects run.1 q, total-Accounted a s run acc, size),
  )

  expired_taken-Keeps :
      (exchange : Venue) (queue : List Trade) (q : Queues)
      → q.watched ≡ queue
      → AllTracked P q
      → Keeps P q (expired_taken d init exchange (get_oldest_order queue) q)
  unfolding expired_taken get_oldest_order
  expired_taken-Keeps exchange [] q e h = (h, omega arith)
  expired_taken-Keeps exchange (o ∷ queue) q e h =
      let (p, rest) = subst (All P) e h.0 in
      effects-Keeps o standing _ (record q { watched = queue }) q
        (process_expired_order-Accounted d init exchange o) p (rest, h.1)
        (omega (arith, ap length e))

  failed_taken-Keeps :
      (market : Market) (opens history : List (Option (List Trade))) (queue : List Trade)
      (q : Queues)
      → q.failed ≡ queue
      → AllTracked P q
      → Keeps P q (failed_taken d init market opens history (get_next_order queue) q)
  unfolding failed_taken get_next_order
  failed_taken-Keeps market opens history [] q e h = (h, omega arith)
  failed_taken-Keeps market opens history (o ∷ queue) q e h =
      let (p, rest) = subst (All P) e h.1 in
      by_end (process_failed_order d init market opens history o)
        (process_failed_order-Accounts d init market opens history o) p rest
    where
      by_end :
          (end : Option Run)
          → Accounts o end
          → P o
          → All P queue
          → Keeps P q (apply_effects (effects_of end) (record q { failed = queue }))
      by_end none acc p rest = ((h.0, rest), omega (arith, ap length e))
      by_end (some run) (s, acc) p rest =
          effects-Keeps o s run (record q { failed = queue }) q acc p (h.0, rest)
            (omega (arith, ap length e))

  -- However the services take turns and whatever the exchanges answer, they never have more orders in
  -- the watch list and among the failed ones together than they began with, and what is true of every
  -- one of these orders and depends on its type, exchange, pair and deal only stays true of every one.
  pub Rounds-Keeps : (q q' : Queues) → Rounds d init q q' → AllTracked P q → Keeps P q q'
  unfolding expired_round failed_round saving_round
  Rounds-Keeps q q' start h = (h, omega arith)
  Rounds-Keeps q q' (expired exchange rest) h =
      let (h1, less) = expired_taken-Keeps exchange q.watched q refl h in
      let (h2, less2) = Rounds-Keeps _ q' rest h1 in (h2, omega (arith, less, less2))
  Rounds-Keeps q q' (failing market opens history rest) h =
      let (h1, less) = failed_taken-Keeps market opens history q.failed q refl h in
      let (h2, less2) = Rounds-Keeps _ q' rest h1 in (h2, omega (arith, less, less2))
  Rounds-Keeps q q' (saving rest) h =
      let (h1, less) = saved_taken-Keeps P (get_next_order q.orders) q h in
      let (h2, less2) = Rounds-Keeps _ q' rest h1 in (h2, omega (arith, less, less2))
