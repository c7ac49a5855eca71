-- ===== src/Precision/Interface.antt =====
-- What the code uses of Python's own numbers. A number is a count of a unit that is small enough for
-- every number of a run, so that comparing, adding and subtracting are those of the integers.
use Prim.Native.String.{String}
use crypto_crawler.Prelude.{ℕ, ℤ, Option}

pub record Decimals : Type 0 where
  -- How many units make 1.
  pub one : ℕ
  -- `Decimal(f)` for the literal f = m / 10^k, which the nearest double stands for.
  pub of_float : ℕ → ℕ → ℤ
  pub multiply : ℤ → ℤ → ℤ
  -- `none` is the exception of a division by zero.
  pub divide : ℤ → ℤ → Option ℤ
  -- `str`, and `float` with the `ValueError` of a text that is not a number.
  pub print : ℤ → String
  pub parse : String → Option ℤ
