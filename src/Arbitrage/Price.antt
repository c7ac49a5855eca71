-- ===== src/Arbitrage/Price.antt =====
-- How deep in a side the price is.
use crypto_crawler.Prelude.{
  ℕ, ◌+◌, ◌*◌, ◌≤◌, ◌<◌, ◌≡◌, ◌≢◌, refl, sym, ◌∙◌, subst, ◌⊎◌, inl, inr, Bool, true, false, Option,
  none, some, List, [], ◌∷◌, if◌then◌else◌, All, Bool-cases, arith,
}
use crypto_crawler.OrderBook.Search.{Deal}
use crypto_crawler.OrderBook.Search.Rank.{IsPriceOrder, IsSorted}
use crypto_crawler.Arbitrage.{price_loop, adjust_price_by_order_book}

-- Some order has the price.
abbrev pub HasPrice : List Deal → ℕ → Type 0
HasPrice [] p = ⊥
HasPrice (d ∷ ds) p = (d.price ≡ p) ⊎ HasPrice ds p

abbrev pub total_volume : List Deal → ℕ
total_volume [] = 0
total_volume (d ∷ ds) = d.volume + total_volume ds

-- The volume at prices that come before p, and at those that do not come after it.
abbrev pub volume_before : (ℕ → ℕ → Bool) → List Deal → ℕ → ℕ
volume_before before [] p = 0
volume_before before (d ∷ ds) p =
    (if before d.price p then d.volume else 0) + volume_before before ds p

abbrev pub volume_until : (ℕ → ℕ → Bool) → List Deal → ℕ → ℕ
volume_until before [] p = 0
volume_until before (d ∷ ds) p =
    (if before p d.price then 0 else d.volume) + volume_until before ds p

-- The price is one of the side's, the orders before it are not enough for the volume, and those up to
-- it are enough or are all that there is.
abbrev pub IsDeepEnough : (ℕ → ℕ → Bool) → List Deal → ℕ → Option ℕ → Type 0
IsDeepEnough before ds v none = ⊥
IsDeepEnough before ds v (some p) =
    HasPrice ds p
    × (volume_before before ds p < v)
    × ((v ≤ volume_until before ds p) ⊎ (volume_until before ds p ≡ total_volume ds))

-- The same with a volume that is already there.
abbrev DeepFrom : (ℕ → ℕ → Bool) → ℕ → ℕ → List Deal → Option ℕ → Type 0
DeepFrom before acc v ds none = ⊥
DeepFrom before acc v ds (some p) =
    HasPrice ds p
    × (acc + volume_before before ds p < v)
    × ((v ≤ acc + volume_until before ds p) ⊎ (volume_until before ds p ≡ total_volume ds))

-- The loop takes an order while the volume is below the limit.
price_loop-first :
    (d : Deal) (ds : List Deal) (acc max : ℕ) (q : Option ℕ)
    → acc < max
    → price_loop max (d ∷ ds) acc q ≡ price_loop max ds (acc + d.volume) (some d.price)
unfolding price_loop
price_loop-first d ds acc max q lt = ground arith

price_loop-nil : (max acc : ℕ) (q : Option ℕ) → price_loop max [] acc q ≡ q
unfolding price_loop
price_loop-nil max acc q = refl

price_loop-stop :
    (ds : List Deal) (acc max : ℕ) (q : Option ℕ) → max ≤ acc → price_loop max ds acc q ≡ q
unfolding price_loop
price_loop-stop [] acc max q le = refl
price_loop-stop (d ∷ ds) acc max q le = ground arith

lt_or_le : (a b : ℕ) → (a < b) ⊎ (b ≤ a)
lt_or_le a b = ground arith

module _ (before : ℕ → ℕ → Bool) (order : IsPriceOrder before) where
  open order use {irrefl, trans}

  asymmetric : (p q : ℕ) → before p q ≡ true → before q p ≡ false
  asymmetric p q h = elim (Bool-cases (before q p)) [
    | inl back ↦ let loop = trans p q p h back in let never = irrefl p in absurd cc
    | inr fine ↦ fine
  ]

  -- Nothing behind the first order counts at its price.
  none_before :
      (ds : List Deal) (p : ℕ)
      → All (λ y. before p y.price ≡ true) ds
      → (volume_before before ds p ≡ 0) × (volume_until before ds p ≡ 0)
  none_before [] p h = (refl, refl)
  none_before (d ∷ ds) p h =
      let back = asymmetric p d.price h.0 in
      let (a, b) = none_before ds p h.1 in (rw back (omega (arith, a)), rw (h.0) (omega (arith, b)))

  HasPrice-All :
      (P : ℕ → Type 0) (ds : List Deal) (p : ℕ) → HasPrice ds p → All (λ y. P y.price) ds → P p
  HasPrice-All P [] p h a = absurd h
  HasPrice-All P (d ∷ ds) p (inl e) a = subst P e a.0
  HasPrice-All P (d ∷ ds) p (inr h) a = HasPrice-All P ds p h a.1

  -- The first order alone, when its volume is enough or when there is no other.
  first-DeepFrom :
      (d : Deal) (ds : List Deal) (acc max : ℕ)
      → All (λ y. before d.price y.price ≡ true) ds
      → acc < max
      → (max ≤ acc + d.volume) ⊎ (ds ≡ [])
      → DeepFrom before acc max (d ∷ ds) (some d.price)
  first-DeepFrom d ds acc max behind lt end =
      let (none_in_front, none_up_to) = none_before ds d.price behind in
      rw (irrefl d.price) (
        inl refl,
        omega (arith, none_in_front),
        elim end [
          | inl enough ↦ inl (omega (arith, none_up_to))
          | inr single ↦ inr (rw single refl)
        ],
      )

  -- A price behind the first order.
  later-DeepFrom :
      (d : Deal) (ds : List Deal) (acc max : ℕ) (r : Option ℕ)
      → All (λ y. before d.price y.price ≡ true) ds
      → DeepFrom before (acc + d.volume) max ds r
      → DeepFrom before acc max (d ∷ ds) r
  later-DeepFrom d ds acc max none behind h = h
  later-DeepFrom d ds acc max (some p) behind (has, low, high) =
      let first = HasPrice-All (λ q. before d.price q ≡ true) ds p has behind in
      rw (first, asymmetric d.price p first)
        (
          inr has,
          omega (arith, low),
          elim high [
            | inl enough ↦ inl (omega (arith, enough))
            | inr all ↦ inr (omega (arith, all))
          ],
        )

  price_loop-DeepFrom :
      (d : Deal) (ds : List Deal) (acc max : ℕ) (q : Option ℕ)
      → IsSorted before (d ∷ ds)
      → acc < max
      → DeepFrom before acc max (d ∷ ds) (price_loop max (d ∷ ds) acc q)
  price_loop-DeepFrom d [] acc max q s lt =
      subst (DeepFrom before acc max (d ∷ []))
        (sym
          (price_loop-first d [] acc max q lt ∙ price_loop-nil max (acc + d.volume) (some d.price)))
        (first-DeepFrom d [] acc max tt lt (inr refl))
  price_loop-DeepFrom d (e ∷ es) acc max q s lt =
      let next = price_loop-first d (e ∷ es) acc max q lt in
      elim (lt_or_le (acc + d.volume) max) [
        | inl more ↦ subst (DeepFrom before acc max (d ∷ e ∷ es)) (sym next) (
            later-DeepFrom d (e ∷ es) acc max _ s.0
              (price_loop-DeepFrom e es (acc + d.volume) max (some d.price) s.1 more))
        | inr enough ↦
            subst (DeepFrom before acc max (d ∷ e ∷ es))
              (sym (next ∙ price_loop-stop (e ∷ es) (acc + d.volume) max (some d.price) enough))
              (first-DeepFrom d (e ∷ es) acc max s.0 lt (inl enough))
      ]

  DeepFrom-IsDeepEnough :
      (ds : List Deal) (v : ℕ) (r : Option ℕ)
      → DeepFrom before 0 v ds r
      → IsDeepEnough before ds v r
  DeepFrom-IsDeepEnough ds v none h = h
  DeepFrom-IsDeepEnough ds v (some p) (has, low, high) = (
    has,
    omega (arith, low),
    elim high [ inl enough ↦ inl (omega (arith, enough)) | inr all ↦ inr all ],
  )

  -- On a side that is sorted and not empty, for a volume above zero: the price that
  -- `adjust_price_by_order_book` returns is that of an order, the orders before it have less than
  -- twice the volume, and those up to it have twice the volume or are the whole side.
  pub adjust_price_by_order_book-IsDeepEnough :
      (orders : List Deal) (min_volume : ℕ)
      → IsSorted before orders
      → orders ≢ []
      → 0 < min_volume
      → IsDeepEnough before orders (2 * min_volume) (adjust_price_by_order_book orders min_volume)
  unfolding adjust_price_by_order_book
  adjust_price_by_order_book-IsDeepEnough [] v s ne pos = absurd (ne refl)
  adjust_price_by_order_book-IsDeepEnough (d ∷ ds) v s ne pos =
      DeepFrom-IsDeepEnough (d ∷ ds) (2 * v) _
        (price_loop-DeepFrom d ds 0 (2 * v) none s (omega arith))
