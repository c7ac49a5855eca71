-- ===== src/OrderBook/Book/Sort.antt =====
-- Sorting a side in which no price stands twice.
use crypto_crawler.Prelude.{
  ℕ, ◌≡◌, ◌≢◌, refl, sym, inl, inr, Bool, some, List, [], ◌∷◌, ◌==◌, if◌then◌else◌, All, All-map,
  arith, Bool-cases,
}
use crypto_crawler.OrderBook.Search.{Deal}
use crypto_crawler.OrderBook.Search.Rank.{IsPriceOrder, IsSorted}
use crypto_crawler.OrderBook.Insert.Levels.{volume_at}
use crypto_crawler.OrderBook.Book.{insert_sorted, sorted}

-- No two deals have the same price.
abbrev pub IsDistinct : List Deal → Type 0
IsDistinct [] = Unit
IsDistinct (x ∷ xs) = All (λ y. x.price ≢ y.price) xs × IsDistinct xs

All-insert_sorted :
    (P : Deal → Type 0) (before : ℕ → ℕ → Bool) (d : Deal) (xs : List Deal)
    → P d
    → All P xs
    → All P (insert_sorted before d xs)
unfolding insert_sorted
All-insert_sorted P before d [] p h = (p, tt)
All-insert_sorted P before d (x ∷ xs) p h = elim (Bool-cases (before x.price d.price)) [
  | inl b ↦ rw b (h.0, All-insert_sorted P before d xs p h.1)
  | inr nb ↦ rw nb (p, h)
]

All-sorted :
    (P : Deal → Type 0) (before : ℕ → ℕ → Bool) (xs : List Deal)
    → All P xs
    → All P (sorted before xs)
unfolding sorted
All-sorted P before [] h = tt
All-sorted P before (x ∷ xs) h =
    All-insert_sorted P before x (sorted before xs) h.0 (All-sorted P before xs h.1)

volume_at-insert_sorted :
    (before : ℕ → ℕ → Bool) (d : Deal) (xs : List Deal) (p : ℕ)
    → All (λ y. d.price ≢ y.price) xs
    → volume_at (insert_sorted before d xs) p
      ≡ (if d.price == p then some d.volume else volume_at xs p)
unfolding insert_sorted
volume_at-insert_sorted before d [] p h = refl
volume_at-insert_sorted before d (x ∷ xs) p h =
    ground (arith, volume_at-insert_sorted before d xs p h.1)

-- Sorting a side with no price twice changes no quote.
pub volume_at-sorted :
    (before : ℕ → ℕ → Bool) (xs : List Deal) (p : ℕ)
    → IsDistinct xs
    → volume_at (sorted before xs) p ≡ volume_at xs p
unfolding sorted
volume_at-sorted before [] p h = refl
volume_at-sorted before (x ∷ xs) p h = ground (
  arith,
  volume_at-insert_sorted before x (sorted before xs) p (All-sorted _ before xs h.0),
  volume_at-sorted before xs p h.1,
)

module _ (before : ℕ → ℕ → Bool) (order : IsPriceOrder before) where
  open order use {trans, total}

  IsSorted-insert_sorted :
      (d : Deal) (xs : List Deal)
      → All (λ y. d.price ≢ y.price) xs
      → IsSorted before xs
      → IsSorted before (insert_sorted before d xs)
  unfolding insert_sorted
  IsSorted-insert_sorted d [] ne s = (tt, tt)
  IsSorted-insert_sorted d (x ∷ xs) ne s = elim (Bool-cases (before x.price d.price)) [
    | inl b ↦ rw b (All-insert_sorted _ before d xs b s.0, IsSorted-insert_sorted d xs ne.1 s.1)
    | inr nb ↦
        let first = total x.price d.price (λ e. ne.0 (sym e)) nb in
        rw nb ((first, All-map _ _ (λ y c. trans d.price x.price y.price first c) xs s.0), s)
  ]

  -- Sorting a side with no price twice makes it strictly sorted.
  pub IsSorted-sorted : (xs : List Deal) → IsDistinct xs → IsSorted before (sorted before xs)
  unfolding sorted
  IsSorted-sorted [] h = tt
  IsSorted-sorted (x ∷ xs) h =
      IsSorted-insert_sorted x (sorted before xs) (All-sorted _ before xs h.0)
        (IsSorted-sorted xs h.1)
