-- ===== src/Orders/Selling.antt =====
-- What is sold is cut from the order or from the balance (core/arbitrage_core.py).
use Prim.Native.String.{String}
use crypto_crawler.Prelude.{◌≡◌, refl, Bool, true, false, if◌then◌else◌}
use crypto_crawler.Enums.CurrencyPair
use crypto_crawler.Enums.CurrencyPair.{CurrencyPair}
use crypto_crawler.Enums.Exchange
use crypto_crawler.Enums.Exchange.{Exchange}
use crypto_crawler.Enums.Currency
use crypto_crawler.Enums.Currency.{Currency}
use crypto_crawler.Enums.DealType.{DealType}

if_true : {A : Type 0} (b : Bool) (x y : A) → b ≡ true → (if b then x else y) ≡ x
if_true b x y h = rw h refl

if_false : {A : Type 0} (b : Bool) (x y : A) → b ≡ false → (if b then x else y) ≡ y
if_false b x y h = rw h refl
