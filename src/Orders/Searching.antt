-- ===== src/Orders/Searching.antt =====
-- Which order `try_to_set_order_id` (core/failed_order.py) takes for its own.
use Prim.Native.String.{String}
use crypto_crawler.Prelude.{
  ℕ, ◌+◌, ◌*◌, ◌≤◌, ℤ, ◌≡◌, refl, sym, ap, subst, ◌⊎◌, inl, inr, true, false, Option, List, [], ◌∷◌,
  length, All, Bool-cases, arith,
}
use crypto_crawler.Enums.DealType
use crypto_crawler.Enums.DealType.{DealType}
use crypto_crawler.Orders.{Trade, same_type}
use crypto_crawler.Orders.Failed.{looks_like, take_order_id, try_to_set_order_id, same_number}

same_type-eq : (a b : DealType) → same_type a b ≡ true → a ≡ b
unfolding DealType.id
same_type-eq a b h = ground arith

same_number-eq : (a b : ℤ) → same_number a b ≡ true → a ≡ b
same_number-eq a b h = ground arith

-- An order of the exchange that has the pair, the type and the price of `o`, and is younger by at most
-- `k` seconds.
abbrev pub Matches : Trade → ℕ → Trade → Type 0
Matches o k e =
    (e.pair_id ≡ o.pair_id)
    × (e.trade_type ≡ o.trade_type)
    × (e.price ≡ o.price)
    × (o.create_time ≤ e.create_time)
    × (e.create_time ≤ o.create_time + k)

-- One that matches has the id.
abbrev pub HasMatch : Trade → ℕ → List Trade → Option String → Type 0
HasMatch o k [] id = ⊥
HasMatch o k (e ∷ es) id = (Matches o k e × (id ≡ e.order_id)) ⊎ HasMatch o k es id

looks_like-Matches : (o e : Trade) → looks_like o e ≡ true → Matches o 14 e
unfolding looks_like
looks_like-Matches o e h =
    let types : same_type o.trade_type e.trade_type ≡ true = ground arith in
    let prices : same_number o.price e.price ≡ true = ground arith in
    (
      ground arith,
      sym (same_type-eq _ _ types),
      sym (same_number-eq _ _ prices),
      ground arith,
      ground arith,
    )

-- What matches a younger order that itself matched.
HasMatch-shift :
    (o e : Trade) (k : ℕ) (es : List Trade) (id : Option String)
    → Matches o 14 e
    → HasMatch (record o { order_id = e.order_id; create_time = e.create_time }) k es id
    → HasMatch o (14 + k) es id
HasMatch-shift o e k [] id m h = h
HasMatch-shift o e k (x ∷ xs) id (p, t, c, low, high) (inl ((q, u, v, l, g), same)) =
    inl ((q, u, v, omega (arith, low, l), omega (arith, high, g)), same)
HasMatch-shift o e k (x ∷ xs) id m (inr h) = inr (HasMatch-shift o e k xs id m h)

Matches-more : (o e : Trade) (j k : ℕ) → j ≤ k → Matches o j e → Matches o k e
Matches-more o e j k le (q, u, v, l, g) = (q, u, v, l, omega (arith, le, g))

HasMatch-more :
    (o : Trade) (j k : ℕ) (es : List Trade) (id : Option String)
    → j ≤ k
    → HasMatch o j es id
    → HasMatch o k es id
HasMatch-more o j k [] id le h = h
HasMatch-more o j k (x ∷ xs) id le (inl (m, same)) = inl (Matches-more o x j k le m, same)
HasMatch-more o j k (x ∷ xs) id le (inr h) = inr (HasMatch-more o j k xs id le h)

-- Nothing looks like the order and it stays, or the id that it ends with is one of a match.
abbrev pub Searched : Trade → List Trade → Trade → Type 0
Searched o es o' =
    (All (λ e. looks_like o e ≡ false) es × (o' ≡ o)) ⊎ HasMatch o (14 * length es) es o'.order_id

try_to_set_order_id-hit :
    (e : Trade) (es : List Trade) (o : Trade)
    → looks_like o e ≡ true
    → try_to_set_order_id (e ∷ es) o
      ≡ try_to_set_order_id es (record o { order_id = e.order_id; create_time = e.create_time })
unfolding try_to_set_order_id take_order_id
try_to_set_order_id-hit e es o hit = rw hit refl

try_to_set_order_id-miss :
    (e : Trade) (es : List Trade) (o : Trade)
    → looks_like o e ≡ false
    → try_to_set_order_id (e ∷ es) o ≡ try_to_set_order_id es o
unfolding try_to_set_order_id take_order_id
try_to_set_order_id-miss e es o miss = rw miss refl

-- Either no order of the exchange passes the test of try_to_set_order_id and the order stays as it
-- is, or the order ends with the id of an order of the same pair, type and price that is not older,
-- and younger by at most 14 seconds for each order of the list.
pub try_to_set_order_id-Searched :
    (es : List Trade) (o : Trade) → Searched o es (try_to_set_order_id es o)
unfolding try_to_set_order_id
try_to_set_order_id-Searched [] o = inl (tt, refl)
try_to_set_order_id-Searched (e ∷ es) o = elim (Bool-cases (looks_like o e)) [
  | inl hit ↦
      let m = looks_like-Matches o e hit in
      let o1 = record o { order_id = e.order_id; create_time = e.create_time } in
      subst (Searched o (e ∷ es)) (sym (try_to_set_order_id-hit e es o hit))
        (elim (try_to_set_order_id-Searched es o1) [
          | inl (none_left, same) ↦
              inr (inl (Matches-more o e 14 _ (omega arith) m, ap (λ q. q.order_id) same))
          | inr later ↦ inr (
              inr (
                HasMatch-more o (14 + 14 * length es) _ es _ (omega arith)
                  (HasMatch-shift o e _ es _ m later)))
        ])
  | inr miss ↦
      subst (Searched o (e ∷ es)) (sym (try_to_set_order_id-miss e es o miss))
        (elim (try_to_set_order_id-Searched es o) [
          | inl (none_left, same) ↦ inl ((miss, none_left), same)
          | inr later ↦ inr (inr (HasMatch-more o _ _ es _ (omega arith) later))
        ])
]
