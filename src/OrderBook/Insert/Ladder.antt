-- ===== src/OrderBook/Insert/Ladder.antt =====
-- The two ladders of conditions, one equation for each way into them.
use crypto_crawler.Prelude.{
  ℕ, suc, ◌-◌, ◌≡◌, Bool, true, false, List, [], ◌∷◌, ltb, leb, if◌then◌else◌, arith,
}
use crypto_crawler.OrderBook.Search.{Deal}
use crypto_crawler.OrderBook.Insert.{
  Outcome, done, died, ◌>>=◌, apply_ask, apply_bid, min_volume_order_book, present_at,
}

-- One deal more in front, which comes before the message.
abbrev pub cons_outcome : Deal → Outcome (List Deal) → Outcome (List Deal)
cons_outcome x r = r >>= λ side. done (x ∷ side)

pub apply_ask-cons :
    (x : Deal) (xs : List Deal) (i : ℕ) (d : Deal) (ow : Bool)
    → apply_ask (x ∷ xs) (suc i) d ow ≡ cons_outcome x (apply_ask xs i d ow)
unfolding apply_ask
apply_ask-cons x xs i d ow = ground arith

pub apply_bid-cons :
    (x : Deal) (xs : List Deal) (i : ℕ) (d : Deal) (ow : Bool)
    → apply_bid (x ∷ xs) (suc i) d ow ≡ cons_outcome x (apply_bid xs i d ow)
unfolding apply_bid
apply_bid-cons x xs i d ow = ground arith

abbrev pub absent_outcome : List Deal → Deal → Bool → Outcome (List Deal)
absent_outcome xs d true = if leb d.volume min_volume_order_book then done xs else done (d ∷ xs)
absent_outcome xs d false = done xs

pub apply_ask-absent :
    (xs : List Deal) (d : Deal) (ow : Bool)
    → present_at xs 0 d ≡ false
    → apply_ask xs 0 d ow ≡ absent_outcome xs d ow
unfolding apply_ask
apply_ask-absent [] d ow h = ground arith
apply_ask-absent (x ∷ xs) d ow h = ground arith

pub apply_bid-absent :
    (xs : List Deal) (d : Deal) (ow : Bool)
    → present_at xs 0 d ≡ false
    → apply_bid xs 0 d ow ≡ absent_outcome xs d ow
unfolding apply_bid
apply_bid-absent [] d ow h = ground arith
apply_bid-absent (x ∷ xs) d ow h = ground arith

pub apply_ask-present :
    (x : Deal) (xs : List Deal) (d : Deal) (ow : Bool)
    → x.price ≡ d.price
    → apply_ask (x ∷ xs) 0 d ow ≡ (
        if leb d.volume min_volume_order_book
        then done xs
        else if ow
        then done (record x { volume = d.volume } ∷ xs)
        else if ltb x.volume d.volume
        then died
        else done (record x { volume = x.volume - d.volume } ∷ xs))
unfolding apply_ask
apply_ask-present x xs d ow e = ground arith

pub apply_bid-present :
    (x : Deal) (xs : List Deal) (d : Deal) (ow : Bool)
    → x.price ≡ d.price
    → apply_bid (x ∷ xs) 0 d ow ≡ (
        if leb d.volume min_volume_order_book
        then done xs
        else done (record x { volume = d.volume } ∷ xs))
unfolding apply_bid
apply_bid-present x xs d ow e = ground arith
