-- ===== src/Tests/Cents.antt =====
-- Numbers for the examples: counts of 0.01, with products and quotients cut to them, and the texts of
-- the volumes of the examples and of what is left of these texts.
use Prim.Native.String.{String}
use crypto_crawler.Prelude.{
  ◌*◌, ◌/◌, ◌^◌, ℤ, pos, pos_part, Option, none, some, List, [], ◌∷◌, ◌==◌, if◌then◌else◌,
}
use crypto_crawler.Currencies.Dict.{get_by_name}
use crypto_crawler.Precision.Interface.{Decimals}

abbrev times : ℤ → ℤ → ℤ
times (pos a) (pos b) = pos (a * b / 100)
times _ _ = pos 0

abbrev over : ℤ → ℤ → Option ℤ
over (pos a) (pos b) = if b == 0 then none else some (pos (a * 100 / b))
over _ _ = none

abbrev pub texts : List (String × ℤ)
texts = ("1.50", pos 150) ∷ ("1.5", pos 150) ∷ ("1.", pos 100) ∷ ("1.2", pos 120) ∷ []

abbrev shown : ℤ → String
shown n = if pos_part n == 150 then "1.50" else "1.2"

unfoldable pub cents : Decimals
unfolding get_by_name
cents = record {
  one = 100;
  of_float = λ m k. pos (m * 100 / 10 ^ k);
  multiply = times;
  divide = over;
  print = shown;
  parse = get_by_name texts;
}
