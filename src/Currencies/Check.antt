-- ===== src/Currencies/Check.antt =====
-- What holds of every entry of a table, found by evaluation, holds of every value that is read
-- from it.
use Prim.Native.String.{String}
use text.Mathlib.Text.{◌==◌ as str_eq}
use text.Mathlib.TextEquality.{eq_iff}
use mathlib.Core.Option.{some-injective}
use crypto_crawler.Prelude.{
  ℕ, ◌≡◌, ◌≢◌, refl, inl, inr, Bool, true, false, not, ◌&&◌, ◌||◌, ◌↔◌, Option, none, some, List,
  [], ◌∷◌, ◌==◌, ==_iff, All, Bool-cases, arith,
}
use crypto_crawler.Currencies.Dict.{get_by_id, get_by_name}

unfoldable pub all_entries : {K V : Type 0} → (K → V → Bool) → List (K × V) → Bool
all_entries p [] = true
all_entries p ((k, v) ∷ table) = p k v && all_entries p table

-- A test of what an `Option` holds.
unfoldable pub holds : {A : Type 0} → (A → Bool) → Option A → Bool
holds p none = false
holds p (some a) = p a

pub holds-elim :
    {A : Type 0} (p : A → Bool) (o : Option A)
    → holds p o ≡ true
    → (a : A) × (o ≡ some a) × (p a ≡ true)
unfolding holds
holds-elim p none h = cc
holds-elim p (some a) h = (a, refl, h)

pub get_by_id-all :
    {K V : Type 0} (id : K → ℕ) (p : K → V → Bool) (table : List (K × V)) (n : ℕ) {v : V}
    → all_entries p table ≡ true
    → get_by_id id table n ≡ some v
    → (k : K) × (id k ≡ n) × (p k v ≡ true)
unfolding all_entries get_by_id
get_by_id-all id p [] n h e = cc
get_by_id-all id p ((k, w) ∷ table) n {v = v} h e = elim (Bool-cases (id k == n)) [
  | inl hit ↦
      let same : some w ≡ some v = rw hit at e in
      (k, (==_iff _ _).0 hit, rw (← some-injective _ _ same) (ground arith))
  | inr miss ↦ get_by_id-all id p table n (ground arith) (rw miss at e)
]

pub get_by_name-all :
    {V : Type 0} (p : String → V → Bool) (table : List (String × V)) (name : String) {v : V}
    → all_entries p table ≡ true
    → get_by_name table name ≡ some v
    → p name v ≡ true
unfolding all_entries get_by_name
get_by_name-all p [] name h e = cc
get_by_name-all p ((k, w) ∷ table) name {v = v} h e = elim (Bool-cases (str_eq k name)) [
  | inl hit ↦
      let same : some w ≡ some v = rw hit at e in
      rw (← some-injective _ _ same, ← (eq_iff k name).0 hit) (ground arith)
  | inr miss ↦ get_by_name-all p table name (ground arith) (rw miss at e)
]

-- Readings of Boolean tests, for values that stay shut.
unfoldable pub is_none : {A : Type 0} → Option A → Bool
is_none none = true
is_none (some a) = false

pub is_none_iff : {A : Type 0} (o : Option A) → (is_none o ≡ true) ↔ (o ≡ none)
unfolding is_none
is_none_iff none = (λ h. refl, λ h. refl)
is_none_iff (some a) = (λ h. cc, λ h. cc)

unfoldable pub implies : Bool → Bool → Bool
implies a b = not a || b

pub implies-elim : (a b : Bool) → implies a b ≡ true → a ≡ true → b ≡ true
unfolding implies
implies-elim a b h k = ground arith

unfoldable pub agree : Bool → Bool → Bool
agree true b = b
agree false b = not b

pub agree-elim : (a b : Bool) → agree a b ≡ true → a ≡ b
unfolding agree
agree-elim true b h = cc
agree-elim false true h = cc
agree-elim false false h = refl

pub and-elim : (a b : Bool) → (a && b) ≡ true → (a ≡ true) × (b ≡ true)
and-elim a b h = ground arith

pub ne_of_test : (m n : ℕ) → not (m == n) ≡ true → m ≢ n
ne_of_test m n h = ground arith

pub or-elim : (a b : Bool) → (a || b) ≡ true → ¬ (a ≡ true) → b ≡ true
or-elim true b h n = absurd (n refl)
or-elim false b h n = h

-- What holds of `none` and of every value of a table holds of what a reading gives.
pub get_by_id-cases :
    {K V : Type 0} (P : Option V → Type 0) (id : K → ℕ) (table : List (K × V)) (n : ℕ)
    → P none
    → All (λ e. P (some e.1)) table
    → P (get_by_id id table n)
unfolding get_by_id
get_by_id-cases P id [] n h a = h
get_by_id-cases P id ((k, v) ∷ table) n h a = elim (Bool-cases (id k == n)) [
  | inl hit ↦ rw hit a.0
  | inr miss ↦ rw miss (get_by_id-cases P id table n h a.1)
]
