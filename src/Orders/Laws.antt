-- ===== src/Orders/Laws.antt =====
-- The volume of an order is kept: what is executed of it and what is left
-- (core/expired_order.py), and what is sold (core/arbitrage_core.py).
use crypto_crawler.Prelude.{
  ℤ, ◌+ℤ◌, ◌-ℤ◌, -ℤ_restore, -ℤ_rest, ◌≡◌, ◌≢◌, refl, ap, ◌⊎◌, inl, inr, Bool, true, false, Option,
  none, some, List, [], ◌∷◌, ◌++◌, All, Bool-cases, ◌==◌, ==_iff, arith,
}
use crypto_crawler.Enums.Exchange
use crypto_crawler.Enums.Exchange.{Exchange}
use crypto_crawler.OrderBook.Insert.{Outcome, done, raised}
use crypto_crawler.Orders.{Number, decimal, float, Trade, trade_eq}
use crypto_crawler.Orders.Volume.{
  subtract, take_reported, take_left, take_executed, executed_volume_updated,
}

-- The order with another volume and another executed volume, which together make its old volume.
abbrev pub Splits : Trade → Number → ℤ → ℤ → Outcome (Bool × Trade) → Type 0
Splits o left_type left executed r =
    (r
      ≡ done (
        true,
        record o { volume = left; volume_type = left_type; executed_volume = some executed },
      ))
    × (left +ℤ executed ≡ o.volume)

-- Where the two numbers of a subtraction have one type something holds, and else it is an exception.
abbrev pub WithTypes : Number → Number → Outcome (Bool × Trade) → Type 0 → Type 0
WithTypes s t r P = ((s ≡ t) × P) ⊎ ((s ≢ t) × (r ≡ raised))

-- By the executed volume that an open order lists: an exception where there is none.
abbrev pub IsReported : Option ℤ → Trade → Outcome (Bool × Trade) → Type 0
IsReported none o r = r ≡ raised
IsReported (some executed) o r =
    WithTypes o.volume_type decimal r ((left : ℤ) × Splits o decimal left executed r)

-- At Poloniex the open order lists what is left, and at the others what is executed.
abbrev pub TakesFrom : Trade → Trade → Outcome (Bool × Trade) → Type 0
TakesFrom x o r =
    ((o.exchange_id ≡ Exchange.id Exchange.poloniex)
      × WithTypes o.volume_type x.volume_type r
          ((executed : ℤ) × Splits o x.volume_type x.volume executed r))
    ⊎ ((o.exchange_id ≢ Exchange.id Exchange.poloniex) × IsReported x.executed_volume o r)

abbrev pub NoMatch : List Trade → Trade → Type 0
NoMatch orders o = All (λ x. trade_eq x (some o) ≡ false) orders

-- The first open order that equals the order.
abbrev pub IsFirst : List Trade → Trade → Trade → Type 0
IsFirst orders x o =
    (earlier later : List Trade) × (orders ≡ earlier ++ x ∷ later)
    × NoMatch earlier o
    × (trade_eq x (some o) ≡ true)

is_float : Number → Bool
is_float decimal = false
is_float float = true

-- The two numbers have one type, or the subtraction is an exception.
subtract-cases :
    (s t : Number) (a b : ℤ)
    → ((s ≡ t) × (subtract s t a b ≡ done (a -ℤ b))) ⊎ ((s ≢ t) × (subtract s t a b ≡ raised))
unfolding subtract
subtract-cases decimal decimal a b = inl (refl, refl)
subtract-cases float float a b = inl (refl, refl)
subtract-cases decimal float a b = inr ((λ e. let e' = ap is_float e in absurd cc), refl)
subtract-cases float decimal a b = inr ((λ e. let e' = ap is_float e in absurd cc), refl)

take_reported-IsReported : (v : Option ℤ) (o : Trade) → IsReported v o (take_reported v o)
unfolding take_reported
take_reported-IsReported none o = refl
take_reported-IsReported (some e) o = elim (subtract-cases o.volume_type decimal o.volume e) [
  | inl (same, left) ↦ inl (
    same,
    (
      o.volume -ℤ e,
      (
        rw (left, take_reported)
            (ap
              (λ t. done (
                true,
                record o { volume = o.volume -ℤ e; volume_type = t; executed_volume = some e },
              ))
              same),
        -ℤ_restore o.volume e,
      ),
    ),
  )
  | inr (apart, fails) ↦ inr (apart, rw (fails, take_reported) refl)
]

take_left-Splits :
    (t : Number) (v : ℤ) (o : Trade)
    → WithTypes o.volume_type t
        (take_left t v o)
        ((executed : ℤ) × Splits o t v executed (take_left t v o))
unfolding take_left
take_left-Splits t v o = elim (subtract-cases o.volume_type t o.volume v) [
  | inl (same, executed) ↦
      inl (same, (o.volume -ℤ v, (rw (executed, take_left) refl, -ℤ_rest o.volume v)))
  | inr (apart, fails) ↦ inr (apart, rw (fails, take_left) refl)
]

take_executed-TakesFrom : (x o : Trade) → TakesFrom x o (take_executed x o)
unfolding take_executed
take_executed-TakesFrom x o = elim (Bool-cases (o.exchange_id == Exchange.id Exchange.poloniex)) [
  | inl at ↦
      rw (at, take_executed) (inl ((==_iff _ _).0 at, take_left-Splits x.volume_type x.volume o))
  | inr elsewhere ↦
      let ne : o.exchange_id ≢ Exchange.id Exchange.poloniex = ground arith in
      rw (elsewhere, take_executed) (inr (ne, take_reported-IsReported x.executed_volume o))
]

-- executed_volume_updated changes the order by the first open order that equals it. At Poloniex the
-- volume becomes what this lists as left, and elsewhere the executed volume becomes what it lists as
-- executed, with an exception where it lists none; the other one of the two is such that they make
-- the old volume together, and nothing else of the order changes but the type of its volume. It is an
-- exception where the two numbers that are subtracted are a Decimal and a float. Where no open order
-- equals it, the answer is false and the order stays as it is.
pub executed_volume_updated-Splits :
    (orders : List Trade) (o : Trade)
    → (NoMatch orders o × (executed_volume_updated orders o ≡ done (false, o)))
      ⊎ ((x : Trade) × IsFirst orders x o × TakesFrom x o (executed_volume_updated orders o))
unfolding executed_volume_updated
executed_volume_updated-Splits [] o = inl (tt, refl)
executed_volume_updated-Splits (x ∷ xs) o = elim (Bool-cases (trade_eq x (some o))) [
  | inl hit ↦ rw hit (inr (x, ([], xs, refl, tt, hit), take_executed-TakesFrom x o))
  | inr miss ↦ rw miss (elim (executed_volume_updated-Splits xs o) [
    | inl (none_of, same) ↦ inl ((refl, none_of), same)
    | inr (y, (earlier, later, split, none_of, hit), takes) ↦
        inr (y, (x ∷ earlier, later, ap (λ l. x ∷ l) split, (miss, none_of), hit), takes)
  ])
]
