-- ===== src/Balances/RoundTrip.antt =====
-- Selling what was bought, at the same price, restores the balances (data/balance_state.py).
use crypto_crawler.Prelude.{
  ℕ, ℤ, ◌+ℤ◌, ◌-ℤ◌, ◌≡◌, sym, ap, ◌∙◌, inl, inr, some, >>=-eq-some, -ℤ_rest, -ℤ_added, Option-cases,
}
use mathlib.Core.Option.{some-injective}
use crypto_crawler.Enums.Currency
use crypto_crawler.Enums.Currency.{Currency}
use crypto_crawler.Currencies.Split.{split_currency_pairs}
use crypto_crawler.Currencies.PairLaws.{split_currency_pairs-proper}
use crypto_crawler.OrderBook.Book.{OrderBook}
use crypto_crawler.Precision.Interface.{Decimals}
use crypto_crawler.Balances.{
  lookup, BalanceState, get_available_volume_by_currency, update_available, update_time,
  add_balance_by_pair, subtract_balance_by_pair,
}
use crypto_crawler.Balances.Laws.{
  IsTrade, changes-IsTrade, add_balance_by_pair-IsTrade, ne_or_eq, update_available-IsChanged,
}

update_available-some :
    (s : BalanceState) (c e : ℕ) (f : ℤ → ℤ) {a : ℤ}
    → get_available_volume_by_currency s c e ≡ some a
    → (s' : BalanceState) × (update_available s c e f ≡ some s')
unfolding get_available_volume_by_currency update_available
update_available-some s c e f h =
    let (b, found, entry) = >>=-eq-some (lookup s.balance_per_exchange e) _ h in
    elim (Option-cases (update_available s c e f)) [
      | inl missing ↦ let impossible = rw (found, entry, update_available) at missing in absurd cc
      | inr found_it ↦ found_it
    ]

update_time-some :
    (s : BalanceState) (e t c : ℕ) {a : ℤ}
    → get_available_volume_by_currency s c e ≡ some a
    → (s' : BalanceState) × (update_time s e t ≡ some s')
unfolding get_available_volume_by_currency update_time
update_time-some s e t c h =
    let (b, found, entry) = >>=-eq-some (lookup s.balance_per_exchange e) _ h in
    elim (Option-cases (update_time s e t)) [
      | inl missing ↦ let impossible = rw (found, update_time) at missing in absurd cc
      | inr found_it ↦ found_it
    ]

-- Two changes that undo two others restore every entry.
trades-restore :
    (s s1 s2 : BalanceState) (e x y : ℕ) (f g f' g' : ℤ → ℤ)
    → ((a : ℤ) → f' (f a) ≡ a)
    → ((b : ℤ) → g' (g b) ≡ b)
    → IsTrade s s1 e x f y g
    → IsTrade s1 s2 e y g' x f'
    → (c' e' : ℕ)
    → get_available_volume_by_currency s2 c' e' ≡ get_available_volume_by_currency s c' e'
trades-restore s s1 s2 e x y f g f' g' ff gg there back c' e' =
    let ((a, a0, a1), (b, b0, b1), rest) = there in
    let ((b', b2, b3), (a', a2, a3), rest') = back in
    let a_same : f a ≡ a' = some-injective _ _ (sym a1 ∙ a2) in
    let b_same : g b ≡ b' = some-injective _ _ (sym b1 ∙ b2) in
    elim (ne_or_eq e' e) [
      | inl elsewhere ↦ rest' c' e' (inl elsewhere) ∙ rest c' e' (inl elsewhere)
      | inr here ↦ elim (ne_or_eq c' x) [
        | inr at_x ↦
            rw (here, at_x) (a3 ∙ ap (λ q. some (f' q)) (sym a_same) ∙ ap some (ff a) ∙ sym a0)
        | inl not_x ↦ elim (ne_or_eq c' y) [
          | inr at_y ↦
              rw (here, at_y) (b3 ∙ ap (λ q. some (g' q)) (sym b_same) ∙ ap some (gg b) ∙ sym b0)
          | inl not_y ↦ rest' c' e' (inr (not_y, not_x)) ∙ rest c' e' (inr (not_x, not_y))
        ]
      ]
    ]

subtract_balance_by_pair-steps :
    (d : Decimals) (s sold paid s' : BalanceState) (book : OrderBook) (volume price : ℤ)
    (src dst : Currency)
    → split_currency_pairs book.pair_id ≡ some (src, dst)
    → update_available s (Currency.id dst) book.exchange_id (λ q. q -ℤ volume) ≡ some sold
    → update_available sold (Currency.id src) book.exchange_id (λ q. d.multiply volume price +ℤ q)
      ≡ some paid
    → update_time paid book.exchange_id book.timest ≡ some s'
    → subtract_balance_by_pair d s book volume price ≡ some s'
unfolding subtract_balance_by_pair
subtract_balance_by_pair-steps d s sold paid s' book v p src dst split h k l = rw (split, h, k) l

-- What was bought at an exchange can be sold there at the same price, and this restores all that is
-- available of every currency at every exchange.
pub subtract_balance_by_pair-add_balance_by_pair :
    (d : Decimals) (s : BalanceState) (book : OrderBook) (volume price : ℤ) {s1 : BalanceState}
    → add_balance_by_pair d s book volume price ≡ some s1
    → (s2 : BalanceState) × (subtract_balance_by_pair d s1 book volume price ≡ some s2)
      × ((c e : ℕ)
          → get_available_volume_by_currency s2 c e ≡ get_available_volume_by_currency s c e)
unfolding add_balance_by_pair
subtract_balance_by_pair-add_balance_by_pair d s book v p {s1 = s1} h =
    let ((src, dst), split, h') = >>=-eq-some (split_currency_pairs book.pair_id) _ h in
    let (base, ne) = split_currency_pairs-proper book.pair_id split in
    let there = add_balance_by_pair-IsTrade d s book v p split h in
    let e = book.exchange_id in
    let x = Currency.id src in
    let y = Currency.id dst in
    let m = d.multiply v p in
    let ((a, a0, a1), (b, b0, b1), rest) = there in
    let (sold, k1) = update_available-some s1 y e (λ q. q -ℤ v) b1 in
    let (changed, others) = update_available-IsChanged s1 y e (λ q. q -ℤ v) k1 in
    let paid_before = others x e (inl ne) ∙ a1 in
    let (paid, k2) = update_available-some sold x e (λ q. m +ℤ q) paid_before in
    let ((a', a2, a3), others') = update_available-IsChanged sold x e (λ q. m +ℤ q) k2 in
    let (s2, k3) = update_time-some paid e book.timest x a3 in
    let back = changes-IsTrade s1 sold paid s2 e book.timest y x _ _ (λ q. ne (sym q)) k1 k2 k3 in
    (
      s2,
      subtract_balance_by_pair-steps d s1 sold paid s2 book v p src dst split k1 k2 k3,
      trades-restore s s1 s2 e x y _ _ _ _ (λ q. -ℤ_rest q m) (λ q. -ℤ_added v q) there back,
    )
