-- ===== src/Balances/Parsed/Covered.antt =====
-- The currencies of a balance that an exchange sends (data/balance.py).
use crypto_crawler.Prelude.{
  ℕ, ℤ, pos, ◌≡◌, refl, ◌≢◌, ◌∙◌, ◌⊎◌, inl, inr, Option, none, some, ◌>>=◌, List, [], ◌∷◌, ◌==◌,
  ==_iff, Bool, true, false, if◌then◌else◌, Bool-cases, subst, sym, All, arith,
}
use crypto_crawler.Enums.Currency
use crypto_crawler.Enums.Currency.{Currency}
use crypto_crawler.Balances.{lookup, store}
use crypto_crawler.Balances.Laws.{lookup-store, lookup-store-other}
use crypto_crawler.Balances.Parsed.Dicts.{
  Volumes, no_volumes, set_available, in_turn, for_each_currency,
}

-- What holds of a result, where there is one.
pub data IfDone {A : Type 0} (P : A → Type 0) : Option A → Type 0 where
  failed : IfDone P none
  result : {a : A} → P a → IfDone P (some a)

pub >>=-IfDone :
    {A B : Type 0} {P : B → Type 0} (o : Option A) {f : A → Option B}
    → ((a : A) → o ≡ some a → IfDone P (f a))
    → IfDone P (o >>= f)
>>=-IfDone none h = failed
>>=-IfDone (some a) h = h a refl

pub if-IfDone :
    {A : Type 0} {P : A → Type 0} (b : Bool) {x y : Option A}
    → (b ≡ true → IfDone P x)
    → (b ≡ false → IfDone P y)
    → IfDone P (if b then x else y)
if-IfDone true p q = p refl
if-IfDone false p q = q refl

-- A step after a result, by what holds of the result.
pub >>=-IfDone-then :
    {A B : Type 0} {P : A → Type 0} {Q : B → Type 0} {o : Option A} {f : A → Option B}
    → IfDone P o
    → ((a : A) → P a → IfDone Q (f a))
    → IfDone Q (o >>= f)
>>=-IfDone-then failed h = failed
>>=-IfDone-then (result {a} p) h = h a p

pub IfDone-weaken :
    {A : Type 0} {P Q : A → Type 0} {o : Option A} → ((a : A) → P a → Q a) → IfDone P o → IfDone Q o
IfDone-weaken h failed = failed
IfDone-weaken h (result {a} p) = result (h a p)

IfDone-result : {A : Type 0} {P : A → Type 0} {a : A} → IfDone P (some a) → P a
IfDone-result (result p) = p

pub IfDone-eq : {A : Type 0} (P : A → Type 0) {o : Option A} {a : A} → o ≡ some a → IfDone P o → P a
IfDone-eq P e h = IfDone-result (subst (IfDone P) e h)

-- A loop whose body has no exception ends.
pub in_turn-returns :
    {A : Type 0} (g : A → Volumes → Volumes) (rest : List A) (v : Volumes)
    → (w : Volumes) × (in_turn (λ a u. some (g a u)) rest v ≡ some w)
unfolding in_turn
in_turn-returns g [] v = (v, refl)
in_turn-returns g (a ∷ rest) v = in_turn-returns g rest (g a v)

abbrev pub Among : {A : Type 0} → A → List A → Type 0
Among a [] = ⊥
Among a (b ∷ bs) = (a ≡ b) ⊎ Among a bs

-- Where a volume of a currency may come from, besides the zero.
module _ (Read : ℕ → ℤ → Type 0) where
  abbrev pub IsFrom : ℕ → ℤ → Type 0
  IsFrom n x = (x ≡ pos 0) ⊎ Read n x

  abbrev pub HasEntry : List (ℕ × ℤ) → ℕ → Type 0
  HasEntry dict n = (x : ℤ) × (lookup dict n ≡ some x) × IsFrom n x

  -- The currencies with an available volume keep one.
  abbrev pub Keeps : Volumes → Volumes → Type 0
  Keeps v w = (n : ℕ) → HasEntry v.available n → HasEntry w.available n

  store-HasEntry :
      (dict : List (ℕ × ℤ)) (n m : ℕ) (x : ℤ)
      → IsFrom n x
      → HasEntry dict m
      → HasEntry (store dict n x) m
  store-HasEntry dict n m x from (y, e, old) = elim (Bool-cases (m == n)) [
    | inl same ↦
        subst (HasEntry (store dict n x)) (sym ((==_iff _ _).0 same))
          (x, lookup-store dict n x, from)
    | inr apart ↦ let ne : m ≢ n = ground arith in (y, lookup-store-other dict n m x ne ∙ e, old)
  ]

  pub set_available-Keeps :
      (n : ℕ) (x : ℤ) (v : Volumes) → IsFrom n x → Keeps v (set_available n x v)
  set_available-Keeps n x v from m h = store-HasEntry v.available n m x from h

  pub in_turn-Keeps :
      {A : Type 0} (f : A → Volumes → Option Volumes) (rest : List A)
      → ((a : A) → Among a rest → (v : Volumes) → IfDone (Keeps v) (f a v))
      → (v : Volumes) → IfDone (Keeps v) (in_turn f rest v)
  unfolding in_turn
  in_turn-Keeps f [] h v = result (λ n e. e)
  in_turn-Keeps f (a ∷ rest) h v = >>=-IfDone-then (h a (inl refl) v) (λ w k.
      IfDone-weaken (λ u k' n e. k' n (k n e)) (in_turn-Keeps f rest (λ b m. h b (inr m)) w))

  -- The body of a loop over the currencies gives its currency an entry.
  abbrev pub Covers : ℕ → Volumes → Volumes → Type 0
  Covers n v w = Keeps v w × HasEntry w.available n

  pub zero-Covers : (n : ℕ) (v : Volumes) → Covers n v (set_available n (pos 0) v)
  zero-Covers n v = (
    set_available-Keeps n (pos 0) v (inl refl),
    (pos 0, lookup-store v.available n (pos 0), inl refl),
  )

  pub Keeps-Covers :
      (n : ℕ) (v w : Volumes) {o : Option Volumes}
      → Covers n v w
      → IfDone (Keeps w) o
      → IfDone (Covers n v) o
  Keeps-Covers n v w (k, e) = IfDone-weaken (λ u k'. ((λ m h. k' m (k m h)), k' n e))

  abbrev pub AllCovered : List Currency → Volumes → Type 0
  AllCovered cs v = All (λ c. HasEntry v.available (Currency.id c)) cs

  in_turn-Covers :
      (f : ℕ → Volumes → Option Volumes)
      → ((n : ℕ) (v : Volumes) → IfDone (Covers n v) (f n v))
      → (cs : List Currency) (v : Volumes)
      → IfDone (λ w. Keeps v w × AllCovered cs w) (in_turn (λ c. f (Currency.id c)) cs v)
  unfolding in_turn
  in_turn-Covers f h [] v = result ((λ n e. e), tt)
  in_turn-Covers f h (c ∷ cs) v = >>=-IfDone-then (h (Currency.id c) v) (λ w k.
      IfDone-weaken (λ u k'. ((λ n e. k'.0 n (k.0 n e)), (k'.0 (Currency.id c) k.1, k'.1)))
        (in_turn-Covers f h cs w))

  pub for_each_currency-AllCovered :
      (f : ℕ → Volumes → Option Volumes)
      → ((n : ℕ) (v : Volumes) → IfDone (Covers n v) (f n v))
      → IfDone (AllCovered Currency.values) (for_each_currency f)
  unfolding for_each_currency
  for_each_currency-AllCovered f h =
      IfDone-weaken (λ w k. k.1) (in_turn-Covers f h Currency.values no_volumes)
