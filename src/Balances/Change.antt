-- ===== src/Balances/Change.antt =====
-- `get_change` (core/base_analysis.py): the difference of two numbers in percent of their mean.
use crypto_crawler.Prelude.{
  ◌*◌, ℤ, pos, ◌+ℤ◌, ◌-ℤ◌, ltb_ℤ, Option, some, ◌>>=◌, Bool, if◌then◌else◌, ◌||◌,
}
use crypto_crawler.Precision.{truncate_float}
use crypto_crawler.Precision.Interface.{Decimals}

abbrev abs : ℤ → ℤ
unfolding ◌-ℤ◌
abs a = if ltb_ℤ a (pos 0) then pos 0 -ℤ a else a

abbrev is_zero : ℤ → Bool
is_zero a = if ltb_ℤ a (pos 0) || ltb_ℤ (pos 0) a then Bool.false else Bool.true

-- `none` is the exception of a division or of `float`.
unfoldable pub get_change : Decimals → ℤ → ℤ → Bool → Option ℤ
unfolding ◌+ℤ◌ ◌-ℤ◌ truncate_float
get_change decimals current previous provide_abs =
    let tot = decimals.multiply (decimals.of_float 5 1) (current +ℤ previous) in
    let diff = if provide_abs then abs (current -ℤ previous) else current -ℤ previous in
    let percent = decimals.of_float 1 3 in
    if is_zero tot then some percent else do
      z ← decimals.divide diff tot
      (if ltb_ℤ (decimals.of_float 1 3) z
          then truncate_float decimals (decimals.multiply z (pos (100 * decimals.one))) 2
          else some percent)
