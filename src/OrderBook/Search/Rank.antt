-- ===== src/OrderBook/Search/Rank.antt =====
-- `binary_search` on a strictly sorted list finds the number of deals that come before the target.
use crypto_crawler.Prelude.{
  ℕ, zero, suc, ◌+◌, ◌-◌, ◌/◌, ◌≤◌, ◌≡◌, refl, ◌≢◌, inl, inr, Bool, true, false, some, List, [],
  ◌∷◌, if◌then◌else◌, length, get_elem?, take, drop, All, All-take, All-get_elem?, length-take,
  length-drop, get_elem?-lt, arith, Bool-cases, ap,
}
use native.Mathlib.Nat.{le_refl}
use native.Mathlib.Numerals.{add-one}
use crypto_crawler.OrderBook.Search.{Deal, deal_eq, search, binary_search}

-- What the two orders on prices have in common.
pub record IsPriceOrder (before : ℕ → ℕ → Bool) : Type 0 where
  pub irrefl : (p : ℕ) → before p p ≡ false
  pub trans : (p q r : ℕ) → before p q ≡ true → before q r ≡ true → before p r ≡ true
  pub total : (p q : ℕ) → p ≢ q → before p q ≡ false → before q p ≡ true

module _ (before : ℕ → ℕ → Bool) where
  abbrev pub cmp_of : Deal → Deal → Bool
  cmp_of a b = before a.price b.price

  -- Every deal comes before each of those behind it: sorted, with no price twice.
  abbrev pub IsSorted : List Deal → Type 0
  IsSorted [] = Unit
  IsSorted (x ∷ xs) = All (λ y. before x.price y.price ≡ true) xs × IsSorted xs

  -- How many deals at the front come before the target.
  abbrev pub rank : List Deal → Deal → ℕ
  rank [] t = 0
  rank (x ∷ xs) t = if before x.price t.price then suc (rank xs t) else 0

  module _ (order : IsPriceOrder before) where
    open order use {irrefl, trans, total}

    rank-drop :
        (xs : List Deal) (i : ℕ) {d : Deal} (t : Deal)
        → IsSorted xs
        → get_elem? xs i ≡ some d
        → before d.price t.price ≡ true
        → rank xs t ≡ suc i + rank (drop (suc i) xs) t
    rank-drop [] i t s e b = cc
    rank-drop (x ∷ xs) zero t s e b = ground arith
    rank-drop (x ∷ xs) (suc i) {d = d} t s e b =
        let first = trans x.price d.price t.price (All-get_elem? _ xs i s.0 e) b in
        rw first (omega (arith, rank-drop xs i t s.1 e b))

    rank-hit :
        (xs : List Deal) (i : ℕ) {d : Deal} (t : Deal)
        → IsSorted xs
        → get_elem? xs i ≡ some d
        → d.price ≡ t.price
        → rank xs t ≡ i
    rank-hit [] i t s e b = cc
    rank-hit (x ∷ xs) zero t s e b = ground (arith, irrefl t.price)
    rank-hit (x ∷ xs) (suc i) {d = d} t s e b =
        let first : before x.price t.price ≡ true = rw b at (All-get_elem? _ xs i s.0 e) in
        rw first (ap suc (rank-hit xs i t s.1 e b))

    rank-take :
        (xs : List Deal) (i : ℕ) {d : Deal} (t : Deal)
        → get_elem? xs i ≡ some d
        → before d.price t.price ≡ false
        → rank xs t ≡ rank (take i xs) t
    rank-take [] i t e b = cc
    rank-take (x ∷ xs) zero t e b = ground arith
    rank-take (x ∷ xs) (suc i) t e b = elim (Bool-cases (before x.price t.price)) [
      | inl first ↦ rw first (ap suc (rank-take xs i t e b))
      | inr later ↦ rw later
    ]

    IsSorted-drop : (i : ℕ) (xs : List Deal) → IsSorted xs → IsSorted (drop i xs)
    IsSorted-drop zero xs h = h
    IsSorted-drop (suc i) [] h = tt
    IsSorted-drop (suc i) (x ∷ xs) h = IsSorted-drop i xs h.1

    IsSorted-take : (i : ℕ) (xs : List Deal) → IsSorted xs → IsSorted (take i xs)
    IsSorted-take zero xs h = tt
    IsSorted-take (suc i) [] h = tt
    IsSorted-take (suc i) (x ∷ xs) h = (All-take _ i xs h.0, IsSorted-take i xs h.1)

    -- One round of `binary_search` on at least two deals, once the recursive calls give ranks.
    search_step :
        (fuel : ℕ) (xs : List Deal) (mid : ℕ) {d : Deal} (t : Deal)
        → IsSorted xs
        → get_elem? xs mid ≡ some d
        → search fuel cmp_of (drop (mid + 1) xs) t ≡ rank (drop (mid + 1) xs) t
        → search fuel cmp_of (take mid xs) t ≡ rank (take mid xs) t
        → (if deal_eq d t
            then mid
            else if cmp_of d t
            then mid + 1 + search fuel cmp_of (drop (mid + 1) xs) t
            else search fuel cmp_of (take mid xs) t)
          ≡ rank xs t
    search_step fuel xs mid {d = d} t s e above below =
        rw (above, below, add-one)
          (ground (arith, rank-hit xs mid t s e, rank-drop xs mid t s e, rank-take xs mid t e))

    search-eq-rank :
        (fuel : ℕ) (xs : List Deal) (t : Deal)
        → length xs ≤ fuel
        → IsSorted xs
        → search fuel cmp_of xs t ≡ rank xs t
    unfolding search
    search-eq-rank zero [] t h s = refl
    search-eq-rank zero (x ∷ xs) t h s = absurd (omega arith)
    search-eq-rank (suc fuel) [] t h s = refl
    search-eq-rank (suc fuel) (x ∷ []) t h s = ground arith
    search-eq-rank (suc fuel) (x ∷ y ∷ rest) t h s =
        let xs : List Deal = x ∷ y ∷ rest in
        let mid : ℕ = (length xs - 1) / 2 in
        let (d, e) = get_elem?-lt xs mid (omega arith) in
        let above =
          search-eq-rank fuel (drop (mid + 1) xs) t (omega (arith, length-drop (mid + 1) xs))
            (IsSorted-drop (mid + 1) xs s) in
        let below =
          search-eq-rank fuel (take mid xs) t (omega (arith, length-take mid xs))
            (IsSorted-take mid xs s) in
        rw (e, search) (search_step fuel xs mid t s e above below)

    -- Binary search on a strictly sorted list of deals returns the number of deals that come before
    -- the target: the place where the target stands, or else the one where it has to be inserted.
    pub binary_search-eq-rank :
        (xs : List Deal) (t : Deal) → IsSorted xs → binary_search cmp_of xs t ≡ rank xs t
    unfolding binary_search
    binary_search-eq-rank xs t s = search-eq-rank (length xs) xs t (le_refl _) s
