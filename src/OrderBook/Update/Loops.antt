-- ===== src/OrderBook/Update/Loops.antt =====
-- The loops over the orders of a message: what they leave sorted, what they quote, and that they end
-- the process only for fills.
use crypto_crawler.Prelude.{
  ℕ, ◌≡◌, ◌≢◌, refl, sym, ap, subst, inl, inr, Bool, true, Option, List, [], ◌∷◌, ◌==◌,
  if◌then◌else◌, arith, Bool-cases, ==_iff,
}
use crypto_crawler.OrderBook.Search.{Deal, before_ask, before_bid}
use crypto_crawler.OrderBook.Search.Rank.{IsSorted}
use crypto_crawler.OrderBook.Insert.{
  Outcome, done, died, raised, ◌>>=◌, >>=-eq-done, done-injective, apply_ask, apply_bid,
  insert_new_ask_preserve_order, insert_new_bid_preserve_order,
}
use crypto_crawler.OrderBook.Insert.Levels.{volume_at, ask_level, bid_level, Refines}
use crypto_crawler.OrderBook.Insert.Refinement.{insert_new_ask-Refines, insert_new_bid-Refines}
use crypto_crawler.OrderBook.Update.{insert_asks, insert_bids}

-- What the messages at one price make of its volume: those at other prices are skipped.
module _ (level : Option ℕ → ℕ → Bool → Outcome (Option ℕ)) where
  abbrev pub levels : List Deal → Bool → ℕ → Option ℕ → Outcome (Option ℕ)
  levels [] ow p v = done v
  levels (d ∷ ds) ow p v = (if d.price == p then level v d.volume ow else done v) >>= levels ds ow p

-- The side stays sorted, and at each price it quotes what the messages at that price alone make of
-- the old quote.
abbrev pub Quotes :
    (ℕ → ℕ → Bool)
    → (Option ℕ → ℕ → Bool → Outcome (Option ℕ))
    → List Deal
    → Bool
    → List Deal
    → List Deal
    → Type 0
Quotes before level ds ow side side' =
    IsSorted before side'
    × ((p : ℕ) → levels level ds ow p (volume_at side p) ≡ done (volume_at side' p))

Refines-done :
    (before : ℕ → ℕ → Bool) (side : List Deal) (p : ℕ) (l : Outcome (Option ℕ)) (mid : List Deal)
    → Refines before side p l (done mid)
    → (l ≡ done (volume_at mid p))
      × IsSorted before mid
      × ((q : ℕ) → q ≢ p → volume_at mid q ≡ volume_at side q)
Refines-done before side p (done v) mid (s, here, others) = (ap done (sym here), s, others)
Refines-done before side p died mid r = absurd r
Refines-done before side p raised mid r = absurd r

Quotes-step :
    (before : ℕ → ℕ → Bool) (level : Option ℕ → ℕ → Bool → Outcome (Option ℕ)) (d : Deal)
    (ds : List Deal) (ow : Bool) (side mid side' : List Deal)
    → Refines before side d.price (level (volume_at side d.price) d.volume ow) (done mid)
    → Quotes before level ds ow mid side'
    → Quotes before level (d ∷ ds) ow side side'
Quotes-step before level d ds ow side mid side' r (s, q) =
    let (here, _, others) = Refines-done before side d.price _ mid r in
    (
      s,
      λ p. elim (Bool-cases (d.price == p)) [
        | inl hit ↦ rw (hit, ← (==_iff _ _).0 hit, here) (q d.price)
        | inr miss ↦ let ne : p ≢ d.price = λ e. ground arith in rw (miss, ← others p ne) (q p)
      ],
    )

-- The loop over asks keeps a sorted side sorted, and what the side quotes at a price afterwards is
-- what the asks at that price alone make of the old quote.
pub insert_asks-Quotes :
    (ds : List Deal) (ow : Bool) (side : List Deal) {side' : List Deal}
    → IsSorted before_ask side
    → insert_asks ds ow side ≡ done side'
    → Quotes before_ask ask_level ds ow side side'
unfolding insert_asks
insert_asks-Quotes [] ow side s e =
    subst (Quotes before_ask ask_level [] ow side) (done-injective _ _ e) (s, λ p. refl)
insert_asks-Quotes (d ∷ ds) ow side s e =
    let (mid, first, rest) =
      >>=-eq-done (insert_new_ask_preserve_order side d ow) (insert_asks ds ow) e in
    let r = rw first at (insert_new_ask-Refines side d ow s) in
    let sorted = (Refines-done before_ask side d.price _ mid r).1 in
    Quotes-step before_ask ask_level d ds ow side mid _ r (insert_asks-Quotes ds ow mid sorted rest)

-- The loop over bids keeps a sorted side sorted, and what the side quotes at a price afterwards is
-- what the bids at that price alone make of the old quote.
pub insert_bids-Quotes :
    (ds : List Deal) (ow : Bool) (side : List Deal) {side' : List Deal}
    → IsSorted before_bid side
    → insert_bids ds ow side ≡ done side'
    → Quotes before_bid bid_level ds ow side side'
unfolding insert_bids
insert_bids-Quotes [] ow side s e =
    subst (Quotes before_bid bid_level [] ow side) (done-injective _ _ e) (s, λ p. refl)
insert_bids-Quotes (d ∷ ds) ow side s e =
    let (mid, first, rest) =
      >>=-eq-done (insert_new_bid_preserve_order side d ow) (insert_bids ds ow) e in
    let r = rw first at (insert_new_bid-Refines side d ow s) in
    let sorted = (Refines-done before_bid side d.price _ mid r).1 in
    Quotes-step before_bid bid_level d ds ow side mid _ r (insert_bids-Quotes ds ow mid sorted rest)

Outcome-done : {A : Type 0} (m : Outcome A) → m ≢ died → m ≢ raised → (a : A) × (m ≡ done a)
Outcome-done (done a) h k = (a, refl)
Outcome-done died h k = absurd (h refl)
Outcome-done raised h k = absurd (k refl)

-- An ask with the flag set, and a bid with either flag, go through on any side.
apply_ask-ne-died : (side : List Deal) (i : ℕ) (d : Deal) → apply_ask side i d true ≢ died
unfolding apply_ask
apply_ask-ne-died side i d = ground arith

apply_ask-ne-raised : (side : List Deal) (i : ℕ) (d : Deal) → apply_ask side i d true ≢ raised
unfolding apply_ask
apply_ask-ne-raised side i d = ground arith

apply_bid-ne-died : (side : List Deal) (i : ℕ) (d : Deal) (ow : Bool) → apply_bid side i d ow ≢ died
unfolding apply_bid
apply_bid-ne-died side i d ow = ground arith

apply_bid-ne-raised :
    (side : List Deal) (i : ℕ) (d : Deal) (ow : Bool) → apply_bid side i d ow ≢ raised
unfolding apply_bid
apply_bid-ne-raised side i d ow = ground arith

insert_new_ask-done :
    (side : List Deal) (d : Deal)
    → (side' : List Deal) × (insert_new_ask_preserve_order side d true ≡ done side')
unfolding insert_new_ask_preserve_order
insert_new_ask-done side d =
    Outcome-done _ (apply_ask-ne-died side _ d) (apply_ask-ne-raised side _ d)

insert_new_bid-done :
    (side : List Deal) (d : Deal) (ow : Bool)
    → (side' : List Deal) × (insert_new_bid_preserve_order side d ow ≡ done side')
unfolding insert_new_bid_preserve_order
insert_new_bid-done side d ow =
    Outcome-done _ (apply_bid-ne-died side _ d ow) (apply_bid-ne-raised side _ d ow)

pub insert_asks-done :
    (ds side : List Deal) → (side' : List Deal) × (insert_asks ds true side ≡ done side')
unfolding insert_asks
insert_asks-done [] side = (side, refl)
insert_asks-done (d ∷ ds) side =
    let (mid, first) = insert_new_ask-done side d in
    let (side', rest) = insert_asks-done ds mid in (side', rw first rest)

-- Bids always go through, fills as well.
pub insert_bids-done :
    (ds side : List Deal) (ow : Bool) → (side' : List Deal) × (insert_bids ds ow side ≡ done side')
unfolding insert_bids
insert_bids-done [] side ow = (side, refl)
insert_bids-done (d ∷ ds) side ow =
    let (mid, first) = insert_new_bid-done side d ow in
    let (side', rest) = insert_bids-done ds mid ow in (side', rw first rest)
