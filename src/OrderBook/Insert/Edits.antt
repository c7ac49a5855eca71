-- ===== src/OrderBook/Insert/Edits.antt =====
-- A message at its place on a sorted side edits the level of its price and no other.
use crypto_crawler.Prelude.{
  ℕ, suc, ◌-◌, ◌≡◌, refl, ◌≢◌, inl, inr, Bool, true, false, Option, none, some, List, [], ◌∷◌, ltb,
  leb, ◌==◌, if◌then◌else◌, All, All-map, arith, Bool-cases, ==_iff,
}
use crypto_crawler.OrderBook.Search.{Deal}
use crypto_crawler.OrderBook.Search.Rank.{IsPriceOrder, IsSorted, rank}
use crypto_crawler.OrderBook.Insert.{
  Outcome, done, died, apply_ask, apply_bid, min_volume_order_book, present_at,
}
use crypto_crawler.OrderBook.Insert.Levels.{volume_at, new_level, ask_level, bid_level, Refines}
use crypto_crawler.OrderBook.Insert.Ladder.{
  cons_outcome, absent_outcome, apply_ask-cons, apply_bid-cons, apply_ask-absent, apply_bid-absent,
  apply_ask-present, apply_bid-present,
}

module _ (before : ℕ → ℕ → Bool) (order : IsPriceOrder before) where
  open order use {irrefl, trans, total}

  abbrev pub Above : ℕ → List Deal → Type 0
  Above p = All (λ y. before p y.price ≡ true)

  -- `Refines`, with what the induction needs besides: bounds of the side and of the message bound
  -- the new side.
  abbrev pub Edits : List Deal → ℕ → Outcome (Option ℕ) → Outcome (List Deal) → Type 0
  Edits side p (done level) (done side') =
      IsSorted before side'
      × ((q : ℕ) → Above q side → before q p ≡ true → Above q side')
      × (volume_at side' p ≡ level)
      × ((q : ℕ) → q ≢ p → volume_at side' q ≡ volume_at side q)
  Edits side p died died = Unit
  Edits side p _ _ = ⊥

  ne_of_before : (p q : ℕ) → before p q ≡ true → p ≢ q
  ne_of_before p q b e = cc (irrefl p)

  volume_at-Above : (p : ℕ) (xs : List Deal) → Above p xs → volume_at xs p ≡ none
  volume_at-Above p [] h = refl
  volume_at-Above p (x ∷ xs) h =
      ground (arith, ne_of_before p x.price h.0, volume_at-Above p xs h.1)

  present_at-Above : (xs : List Deal) (d : Deal) → Above d.price xs → present_at xs 0 d ≡ false
  present_at-Above [] d h = refl
  present_at-Above (x ∷ xs) d h = ground (arith, ne_of_before d.price x.price h.0)

  Above-trans : (p q : ℕ) (xs : List Deal) → before p q ≡ true → Above q xs → Above p xs
  Above-trans p q xs b h = All-map _ _ (λ y c. trans p q y.price b c) xs h

  Edits-cons :
      (x : Deal) (xs : List Deal) (p : ℕ) (level : Outcome (Option ℕ)) (r : Outcome (List Deal))
      → Above x.price xs
      → before x.price p ≡ true
      → Edits xs p level r
      → Edits (x ∷ xs) p level (cons_outcome x r)
  Edits-cons x xs p (done level) (done side') above b (sorted, bounds, here, others) = (
    (bounds x.price above b, sorted),
    (λ q h c. (h.0, bounds q h.1 c)),
    ground (arith, ne_of_before x.price p b),
    (λ q ne. ground (arith, others q ne)),
  )
  Edits-cons x xs p died died above b h = tt
  Edits-cons x xs p level r above b h = absurd h

  -- A new level in front of the side, and a side that stays as it is.
  Edits-new :
      (xs : List Deal) (d : Deal)
      → IsSorted before xs
      → Above d.price xs
      → Edits xs d.price (done (some d.volume)) (done (d ∷ xs))
  Edits-new xs d s above = ((above, s), (λ q h b. (b, h)), ground (arith), (λ q ne. ground arith))

  Edits-same :
      (xs : List Deal) (p : ℕ) → IsSorted before xs → Above p xs → Edits xs p (done none) (done xs)
  Edits-same xs p s above = (s, (λ q h b. h), volume_at-Above p xs above, (λ q ne. refl))

  -- The level of the message stands in front: it is removed, or its volume replaced.
  Edits-erase :
      (x : Deal) (xs : List Deal) (p : ℕ)
      → IsSorted before (x ∷ xs)
      → x.price ≡ p
      → Edits (x ∷ xs) p (done none) (done xs)
  Edits-erase x xs p (above, s) e =
      (s, (λ q h b. h.1), rw (← e) (volume_at-Above x.price xs above), (λ q ne. ground arith))

  Edits-set :
      (x : Deal) (xs : List Deal) (p v : ℕ)
      → IsSorted before (x ∷ xs)
      → x.price ≡ p
      → Edits (x ∷ xs) p (done (some v)) (done (record x { volume = v } ∷ xs))
  Edits-set x xs p v s e = (s, (λ q h b. h), ground arith, (λ q ne. ground arith))

  Edits-if :
      (c : Bool) (side : List Deal) (p : ℕ) (l l' : Outcome (Option ℕ)) (r r' : Outcome (List Deal))
      → Edits side p l r
      → Edits side p l' r'
      → Edits side p (if c then l else l') (if c then r else r')
  Edits-if true side p l l' r r' yep nope = yep
  Edits-if false side p l l' r r' yep nope = nope

  Edits-absent :
      (xs : List Deal) (d : Deal) (ow : Bool)
      → IsSorted before xs
      → Above d.price xs
      → Edits xs d.price (new_level d.volume ow) (absent_outcome xs d ow)
  Edits-absent xs d true s above =
      Edits-if (leb d.volume min_volume_order_book) xs d.price _ _ _ _
        (Edits-same xs d.price s above) (Edits-new xs d s above)
  Edits-absent xs d false s above = Edits-same xs d.price s above

  ask-present :
      (x : Deal) (xs : List Deal) (d : Deal) (ow : Bool)
      → IsSorted before (x ∷ xs)
      → x.price ≡ d.price
      → Edits (x ∷ xs) d.price (ask_level (some x.volume) d.volume ow) (apply_ask (x ∷ xs) 0 d ow)
  ask-present x xs d ow s e = rw (apply_ask-present x xs d ow e) (
      Edits-if (leb d.volume min_volume_order_book) (x ∷ xs) d.price _ _ _ _
        (Edits-erase x xs d.price s e)
        (Edits-if ow (x ∷ xs) d.price _ _ _ _ (Edits-set x xs d.price d.volume s e) (
          Edits-if (ltb x.volume d.volume) (x ∷ xs) d.price _ _ _ _ tt
            (Edits-set x xs d.price (x.volume - d.volume) s e))))

  bid-present :
      (x : Deal) (xs : List Deal) (d : Deal) (ow : Bool)
      → IsSorted before (x ∷ xs)
      → x.price ≡ d.price
      → Edits (x ∷ xs) d.price (bid_level (some x.volume) d.volume ow) (apply_bid (x ∷ xs) 0 d ow)
  bid-present x xs d ow s e = rw (apply_bid-present x xs d ow e) (
      Edits-if (leb d.volume min_volume_order_book) (x ∷ xs) d.price _ _ _ _
        (Edits-erase x xs d.price s e) (Edits-set x xs d.price d.volume s e))

  module _ (level : Option ℕ → ℕ → Bool → Outcome (Option ℕ))
      (apply : List Deal → ℕ → Deal → Bool → Outcome (List Deal))
      (on_cons : (x : Deal) (xs : List Deal) (i : ℕ) (d : Deal) (ow : Bool)
        → apply (x ∷ xs) (suc i) d ow ≡ cons_outcome x (apply xs i d ow))
      (on_present : (x : Deal) (xs : List Deal) (d : Deal) (ow : Bool)
        → IsSorted before (x ∷ xs)
        → x.price ≡ d.price
        → Edits (x ∷ xs) d.price (level (some x.volume) d.volume ow) (apply (x ∷ xs) 0 d ow))
      (on_absent : (xs : List Deal) (d : Deal) (ow : Bool)
        → IsSorted before xs
        → Above d.price xs
        → Edits xs d.price (level none d.volume ow) (apply xs 0 d ow)) where
    apply-Edits :
        (xs : List Deal) (d : Deal) (ow : Bool)
        → IsSorted before xs
        → Edits xs d.price
            (level (volume_at xs d.price) d.volume ow)
            (apply xs (rank before xs d) d ow)
    apply-Edits [] d ow s = on_absent [] d ow tt tt
    apply-Edits (x ∷ xs) d ow s = elim (Bool-cases (before x.price d.price)) [
      | inl b ↦
          let miss : (x.price == d.price) ≡ false =
            ground (arith, ne_of_before x.price d.price b) in
          rw (b, miss, on_cons x xs (rank before xs d) d ow)
            (Edits-cons x xs d.price _ _ s.0 b (apply-Edits xs d ow s.1))
      | inr nb ↦ elim (Bool-cases (x.price == d.price)) [
        | inl e ↦ rw (nb, e) (on_present x xs d ow s ((==_iff _ _).0 e))
        | inr miss ↦
            let b = total x.price d.price (λ e. ground arith) nb in
            let above : Above d.price (x ∷ xs) = (b, Above-trans d.price x.price xs b s.0) in
            rw (nb, miss, volume_at-Above d.price xs above.1) (on_absent (x ∷ xs) d ow s above)
      ]
    ]

  -- Both ladders, at the place that the search finds.
  pub ask-Edits :
      (xs : List Deal) (d : Deal) (ow : Bool)
      → IsSorted before xs
      → Edits xs d.price
          (ask_level (volume_at xs d.price) d.volume ow)
          (apply_ask xs (rank before xs d) d ow)
  ask-Edits = apply-Edits ask_level apply_ask apply_ask-cons ask-present λ xs d ow s above.
      rw (apply_ask-absent xs d ow (present_at-Above xs d above)) (Edits-absent xs d ow s above)

  pub bid-Edits :
      (xs : List Deal) (d : Deal) (ow : Bool)
      → IsSorted before xs
      → Edits xs d.price
          (bid_level (volume_at xs d.price) d.volume ow)
          (apply_bid xs (rank before xs d) d ow)
  bid-Edits = apply-Edits bid_level apply_bid apply_bid-cons bid-present λ xs d ow s above.
      rw (apply_bid-absent xs d ow (present_at-Above xs d above)) (Edits-absent xs d ow s above)

  pub Edits-Refines :
      (side : List Deal) (p : ℕ) (l : Outcome (Option ℕ)) (r : Outcome (List Deal))
      → Edits side p l r
      → Refines before side p l r
  Edits-Refines side p (done _) (done _) (s, _, here, others) = (s, here, others)
  Edits-Refines side p died died h = tt
  Edits-Refines side p l r h = absurd h
