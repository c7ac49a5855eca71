-- ===== src/Balances/Laws.antt =====
-- What buying and selling change in the balances (data/balance_state.py).
use mathlib.Core.Option.{some-injective}
use crypto_crawler.Prelude.{
  ℕ, false, ℤ, ◌+ℤ◌, ◌-ℤ◌, ◌≡◌, ◌≢◌, refl, sym, ◌∙◌, ◌⊎◌, inl, inr, some, >>=-eq-some, List, [],
  ◌∷◌, ◌==◌, ==_iff, ==_refl, Bool-cases, arith,
}
use crypto_crawler.Enums.Currency
use crypto_crawler.Enums.Currency.{Currency}
use crypto_crawler.Currencies.Dict.{get_by_id}
use crypto_crawler.Currencies.Split.{split_currency_pairs}
use crypto_crawler.Currencies.PairLaws.{split_currency_pairs-proper}
use crypto_crawler.OrderBook.Book.{OrderBook}
use crypto_crawler.Precision.Interface.{Decimals}
use crypto_crawler.Balances.{
  lookup, store, Balance, BalanceState, set_balance, get_available_volume_by_currency,
  update_available, update_time, add_balance_by_pair,
}

pub lookup-store :
    {V : Type 0} (dict : List (ℕ × V)) (n : ℕ) (v : V) → lookup (store dict n v) n ≡ some v
unfolding lookup store get_by_id
lookup-store [] n v = rw (==_refl n) refl
lookup-store ((k, w) ∷ dict) n v = elim (Bool-cases (k == n)) [
  | inl hit ↦ rw (hit, hit) refl
  | inr miss ↦ rw (miss, miss) (lookup-store dict n v)
]

pub lookup-store-other :
    {V : Type 0} (dict : List (ℕ × V)) (n m : ℕ) (v : V)
    → m ≢ n
    → lookup (store dict n v) m ≡ lookup dict m
unfolding lookup store get_by_id
lookup-store-other [] n m v ne = elim (Bool-cases (n == m)) [
  | inl hit ↦ absurd (ne (sym ((==_iff _ _).0 hit)))
  | inr miss ↦ rw miss refl
]
lookup-store-other ((k, w) ∷ dict) n m v ne = elim (Bool-cases (k == n)) [
  | inl hit ↦
      let same = (==_iff _ _).0 hit in
      let far : (k == m) ≡ false = ground arith in rw (hit, far) refl
  | inr miss ↦ elim (Bool-cases (k == m)) [
    | inl here ↦ rw (miss, here) refl
    | inr far ↦ rw (miss, far) (lookup-store-other dict n m v ne)
  ]
]

-- The entry of a currency at an exchange is changed, and no other.
abbrev pub IsChanged : BalanceState → BalanceState → ℕ → ℕ → (ℤ → ℤ) → Type 0
IsChanged s s' c e f =
    ((a : ℤ) × (get_available_volume_by_currency s c e ≡ some a)
      × (get_available_volume_by_currency s' c e ≡ some (f a)))
    × ((c' e' : ℕ)
        → (c' ≢ c) ⊎ (e' ≢ e)
        → get_available_volume_by_currency s' c' e' ≡ get_available_volume_by_currency s c' e')

available-store-other :
    (s : BalanceState) (e : ℕ) (b : Balance) (c' e' : ℕ)
    → e' ≢ e
    → get_available_volume_by_currency (set_balance s e b) c' e'
      ≡ get_available_volume_by_currency s c' e'
unfolding get_available_volume_by_currency
available-store-other s e b c' e' ne =
    rw (lookup-store-other s.balance_per_exchange e e' b ne, get_available_volume_by_currency) refl

available-store :
    (s : BalanceState) (e : ℕ) (b : Balance) (c' : ℕ)
    → get_available_volume_by_currency (set_balance s e b) c' e ≡ lookup b.available_balance c'
unfolding get_available_volume_by_currency
available-store s e b c' =
    rw (lookup-store s.balance_per_exchange e b, get_available_volume_by_currency) refl

available-found :
    (s : BalanceState) (e : ℕ) {b : Balance} (c : ℕ)
    → lookup s.balance_per_exchange e ≡ some b
    → get_available_volume_by_currency s c e ≡ lookup b.available_balance c
unfolding get_available_volume_by_currency
available-found s e c h = rw (h, get_available_volume_by_currency) refl

pub ne_or_eq : (m n : ℕ) → (m ≢ n) ⊎ (m ≡ n)
ne_or_eq m n = ground arith

other_key : (c c' e e' : ℕ) → (c' ≢ c) ⊎ (e' ≢ e) → e' ≡ e → c' ≢ c
other_key c c' e e' (inl ne) same = ne
other_key c c' e e' (inr ne) same = absurd (ne same)

pub update_available-IsChanged :
    (s : BalanceState) (c e : ℕ) (f : ℤ → ℤ) {s' : BalanceState}
    → update_available s c e f ≡ some s'
    → IsChanged s s' c e f
unfolding update_available
update_available-IsChanged s c e f {s' = s'} h =
    let (b, found, h') = >>=-eq-some (lookup s.balance_per_exchange e) _ h in
    let (a, entry, new) = >>=-eq-some (lookup b.available_balance c) _ h' in
    let same = some-injective _ _ new in
    rw (← same) (
      (
        a,
        available-found s e c found ∙ entry,
        available-store s e _ c ∙ lookup-store b.available_balance c (f a),
      ),
      λ c' e' apart. elim (ne_or_eq e' e) [
        | inl elsewhere ↦ available-store-other s e _ c' e' elsewhere
        | inr here ↦ rw here (
            available-store s e _ c'
            ∙ lookup-store-other b.available_balance c c' (f a) (other_key c c' e e' apart here)
            ∙ sym (available-found s e c' found))
      ],
    )

update_time-available :
    (s : BalanceState) (e t : ℕ) {s' : BalanceState} (c' e' : ℕ)
    → update_time s e t ≡ some s'
    → get_available_volume_by_currency s' c' e' ≡ get_available_volume_by_currency s c' e'
unfolding update_time
update_time-available s e t c' e' h =
    let (b, found, new) = >>=-eq-some (lookup s.balance_per_exchange e) _ h in
    rw (← some-injective _ _ new) (elim (ne_or_eq e' e) [
      | inl elsewhere ↦ available-store-other s e _ c' e' elsewhere
      | inr here ↦ rw here (available-store s e _ c' ∙ sym (available-found s e c' found))
    ])

-- Two currencies at an exchange change, and nothing else.
abbrev pub IsTrade : BalanceState → BalanceState → ℕ → ℕ → (ℤ → ℤ) → ℕ → (ℤ → ℤ) → Type 0
IsTrade s s' e src pay dst take =
    ((a : ℤ) × (get_available_volume_by_currency s src e ≡ some a)
      × (get_available_volume_by_currency s' src e ≡ some (pay a)))
    × ((b : ℤ) × (get_available_volume_by_currency s dst e ≡ some b)
        × (get_available_volume_by_currency s' dst e ≡ some (take b)))
    × ((c' e' : ℕ)
        → (e' ≢ e) ⊎ ((c' ≢ src) × (c' ≢ dst))
        → get_available_volume_by_currency s' c' e' ≡ get_available_volume_by_currency s c' e')

first_apart : (c' e' e x y : ℕ) → (e' ≢ e) ⊎ ((c' ≢ x) × (c' ≢ y)) → (c' ≢ x) ⊎ (e' ≢ e)
first_apart c' e' e x y (inl ne) = inr ne
first_apart c' e' e x y (inr (nx, ny)) = inl nx

second_apart : (c' e' e x y : ℕ) → (e' ≢ e) ⊎ ((c' ≢ x) × (c' ≢ y)) → (c' ≢ y) ⊎ (e' ≢ e)
second_apart c' e' e x y (inl ne) = inr ne
second_apart c' e' e x y (inr (nx, ny)) = inl ny

-- Two changes and the time.
pub changes-IsTrade :
    (s s1 s2 s' : BalanceState) (e t x y : ℕ) (f g : ℤ → ℤ)
    → x ≢ y
    → update_available s x e f ≡ some s1
    → update_available s1 y e g ≡ some s2
    → update_time s2 e t ≡ some s'
    → IsTrade s s' e x f y g
changes-IsTrade s s1 s2 s' e t x y f g ne h k l =
    let ((a, a_before, a_after), a_rest) = update_available-IsChanged s x e f h in
    let ((b, b_before, b_after), b_rest) = update_available-IsChanged s1 y e g k in
    (
      (a, a_before, update_time-available s2 e t x e l ∙ b_rest x e (inl ne) ∙ a_after),
      (
        b,
        sym (a_rest y e (inl (λ q. ne (sym q)))) ∙ b_before,
        update_time-available s2 e t y e l ∙ b_after,
      ),
      λ c' e' apart.
          update_time-available s2 e t c' e' l
          ∙ b_rest c' e' (second_apart c' e' e x y apart)
          ∙ a_rest c' e' (first_apart c' e' e x y apart),
    )

-- Buying at an exchange takes the price of the volume from the first currency of the pair and adds
-- the volume to the second, and changes nothing that is available of another currency or at another
-- exchange.
pub add_balance_by_pair-IsTrade :
    (d : Decimals) (s : BalanceState) (book : OrderBook) (volume price : ℤ) {s' : BalanceState}
    {src dst : Currency}
    → split_currency_pairs book.pair_id ≡ some (src, dst)
    → add_balance_by_pair d s book volume price ≡ some s'
    → IsTrade s s' book.exchange_id
        (Currency.id src)
        (λ a. a -ℤ d.multiply volume price)
        (Currency.id dst)
        (λ b. volume +ℤ b)
unfolding add_balance_by_pair
add_balance_by_pair-IsTrade d s book v p {s' = s'} split h =
    let (base, ne) = split_currency_pairs-proper book.pair_id split in
    let (paid, h1, k) = >>=-eq-some _ _ (rw split at h) in
    let (bought, h2, h3) = >>=-eq-some _ _ k in
    changes-IsTrade s paid bought s' _ _ _ _ _ _ ne h1 h2 h3
