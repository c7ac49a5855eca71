-- ===== src/Orders/Protocol/Failed.antt =====
-- `process_failed_order` (core/failed_order.py) ends, and follows the machine.
use Prim.Native.String.{String}
use crypto_crawler.Prelude.{
  Bool, true, ◌⊎◌, inl, inr, ◌≡◌, refl, Option, none, some, List, [], ◌∷◌, if-elim,
}
use crypto_crawler.OrderBook.Insert.{Outcome}
use crypto_crawler.Precision.Interface.{Decimals}
use crypto_crawler.Orders.{Trade, Run, fail}
use crypto_crawler.Orders.Placing.{Answer}
use crypto_crawler.Orders.Market.{Market}
use crypto_crawler.Orders.Failed.{
  looks_like, take_order_id, try_to_set_order_id, search_orders, search_until, by_history, by_open,
  process_failed_order,
}
use crypto_crawler.Orders.Protocol.{
  Stage, absent, found_open, found_past, SameOrder, Sends, Accounted, replace_by_market-Accounted,
}

take_order_id-SameOrder : (a e o : Trade) → SameOrder a o → SameOrder a (take_order_id e o)
unfolding take_order_id
take_order_id-SameOrder a e o h = if-elim (SameOrder a) (looks_like o e) _ o h h

try_to_set_order_id-SameOrder :
    (a : Trade) (es : List Trade) (o : Trade)
    → SameOrder a o
    → SameOrder a (try_to_set_order_id es o)
unfolding try_to_set_order_id
try_to_set_order_id-SameOrder a [] o h = h
try_to_set_order_id-SameOrder a (e ∷ es) o h =
    try_to_set_order_id-SameOrder a es _ (take_order_id-SameOrder a e o h)

-- Some reply is not a failure.
abbrev pub HasReply : List (Option (List Trade)) → Type 0
HasReply [] = ⊥
HasReply (none ∷ replies) = HasReply replies
HasReply (some orders ∷ replies) = Unit

search_until-SameOrder :
    (a : Trade) (replies : List (Option (List Trade))) (o : Trade)
    → HasReply replies
    → SameOrder a o
    → (o' : Trade) × (search_until replies o ≡ some o') × SameOrder a o'
unfolding search_until search_orders
search_until-SameOrder a [] o h same = absurd h
search_until-SameOrder a (none ∷ rs) o h same = search_until-SameOrder a rs o h same
search_until-SameOrder a (some [] ∷ rs) o h same = (o, refl, same)
search_until-SameOrder a (some (e ∷ es) ∷ rs) o h same =
    (_, refl, try_to_set_order_id-SameOrder a (e ∷ es) o same)

-- Where a failed order is, by its id after the search in the open orders and after the search in the
-- history.
abbrev pub stage_of : Option String → Option String → Stage
stage_of (some id) _ = found_open
stage_of none (some id) = found_past
stage_of none none = absent

module _ (d : Decimals) (init : Trade → Outcome Answer) (market : Market) (a : Trade) (b : Bool)
    (sends : Sends b init) where
  by_history-Accounted :
      (id : Option String) (o : Trade)
      → SameOrder a o
      → Accounted b a (stage_of none id) (by_history d init market id o)
  unfolding by_history
  by_history-Accounted (some id) o h = (tt, ((h, tt), tt))
  by_history-Accounted none o h =
      replace_by_market-Accounted d init a b sends market fail (λ q. refl) (λ q. refl) (λ q. tt) o h

  -- The end of the call, with its accounting from the stage that the history leaves.
  abbrev pub Done : Option String → Trade → List (Option (List Trade)) → Option Run → Type 0
  Done id o history r =
      (run : Run) × (o' : Trade) × (r ≡ some run)
      × (search_until history o ≡ some o')
      × Accounted b a (stage_of id o'.order_id) run

  by_open-Accounted :
      (history : List (Option (List Trade))) (id : Option String) (o : Trade)
      → HasReply history
      → SameOrder a o
      → Done id o history (by_open d init market history id o)
  unfolding by_open
  by_open-Accounted history (some id) o replies h =
      let (o', found, same) = search_until-SameOrder a history o replies h in
      (_, o', refl, found, (tt, ((h, tt), ((h, tt), tt))))
  by_open-Accounted history none o replies h =
      let (o', found, same) = search_until-SameOrder a history o replies h in
      rw found (_, o', refl, refl, by_history-Accounted o'.order_id o' same)

-- If some reply for the open orders is not a failure, and some reply for the history, then
-- process_failed_order ends. With the order as the search in the open orders leaves it, and then as
-- the search in the history of that leaves it: where the first has an id, the details of the order
-- are written, then it is put into the watch list, and nothing else happens; where only the second
-- has one, its details are written and nothing else happens; where neither has one, its details are
-- not written, it is sent at most once, and it is queued at most once and as the last effect, and
-- when the call returns an order that is sent is saved and in the watch list. Every effect is about
-- this order, of the same type, exchange, pair and deal.
pub process_failed_order-Accounted :
    (d : Decimals) (init : Trade → Outcome Answer) (market : Market)
    (open_orders history : List (Option (List Trade))) (o : Trade)
    → HasReply open_orders
    → HasReply history
    → (run : Run) × (o1 o2 : Trade) × (process_failed_order d init market open_orders history o
        ≡ some run)
      × (search_until open_orders o ≡ some o1)
      × (search_until history o1 ≡ some o2)
      × Accounted true o (stage_of o1.order_id o2.order_id) run
unfolding process_failed_order
process_failed_order-Accounted d init market opens history o h k =
    let (o1, found, same) = search_until-SameOrder o opens o h (refl, refl, refl, refl) in
    let (run, o2, ends, past, accounted) =
      by_open-Accounted d init market o true (λ q. inl refl) history o1.order_id o1 k same in
    rw found (run, o1, o2, ends, refl, past, accounted)

-- Nothing yet, or an end with its accounting.
abbrev pub Accounts : Trade → Option Run → Type 0
Accounts a none = Unit
Accounts a (some run) = (s : Stage) × Accounted true a s run

search_until-cases :
    (a : Trade) (replies : List (Option (List Trade))) (o : Trade)
    → SameOrder a o
    → (search_until replies o ≡ none)
      ⊎ ((o' : Trade) × (search_until replies o ≡ some o') × SameOrder a o')
unfolding search_until search_orders
search_until-cases a [] o same = inl refl
search_until-cases a (none ∷ rs) o same = search_until-cases a rs o same
search_until-cases a (some es ∷ rs) o same = inr (search_until-SameOrder a (some es ∷ rs) o tt same)

by_open-Accounts :
    (d : Decimals) (init : Trade → Outcome Answer) (market : Market) (a : Trade)
    (history : List (Option (List Trade))) (id : Option String) (o : Trade)
    → SameOrder a o
    → Accounts a (by_open d init market history id o)
unfolding by_open
by_open-Accounts d init market a history (some id) o h =
    (found_open, (tt, ((h, tt), ((h, tt), tt))))
by_open-Accounts d init market a history none o h = elim (search_until-cases a history o h) [
  | inl asks ↦ rw asks tt
  | inr (o', found, same) ↦
      rw found (_, by_history-Accounted d init market a true (λ q. inl refl) o'.order_id o' same)
]

pub process_failed_order-Accounts :
    (d : Decimals) (init : Trade → Outcome Answer) (market : Market)
    (open_orders history : List (Option (List Trade))) (o : Trade)
    → Accounts o (process_failed_order d init market open_orders history o)
unfolding process_failed_order
process_failed_order-Accounts d init market opens history o =
    elim (search_until-cases o opens o (refl, refl, refl, refl)) [
      | inl asks ↦ rw asks tt
      | inr (o', found, same) ↦
          rw found (by_open-Accounts d init market o history o'.order_id o' same)
    ]
