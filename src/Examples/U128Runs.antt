-- ===== src/Examples/U128Runs.antt =====
-- 128-bit integers: sums, differences and products of two words, and the text of a number.
use ubgpsuite.Base.{ℕ, ◌+◌, ◌-◌, ◌*◌, ◌%◌, ◌^◌, ◌≡◌, Bool, ◌==◌, ltb, if◌then◌else◌, arith}
use ubgpsuite.U128.Words.{U128, u128add, u128sub, u128mul}
use ubgpsuite.U128.Arith.{value, IsU128, value-u128add, value-u128sub, value-u128mul}
use ubgpsuite.U128.Text.{u128tos}
use ubgpsuite.U128.TextRoundTrip.{ReadsBack, u128tos-stou128}

-- 2^64 + 1 and 2^65 - 1.
abbrev small : U128
small = record { upper = 1; lower = 1 }

abbrev large : U128
large = record { upper = 1; lower = 2 ^ 64 - 1 }

small-IsU128 : IsU128 small
small-IsU128 = (omega arith, omega arith)

large-IsU128 : IsU128 large
large-IsU128 = (omega arith, omega arith)

u128add_example :
    (value (u128add small large) ≡ (value small + value large) % 2 ^ 128)
    × IsU128 (u128add small large)
u128add_example = value-u128add small large small-IsU128 large-IsU128

u128sub_example :
    value (u128sub small large)
    ≡ (value small + 2 ^ 128 - value large + (if ltb small.lower large.lower then 2 ^ 65 else 0))
      % 2 ^ 128
u128sub_example = value-u128sub small large small-IsU128 large-IsU128

u128mul_example : value (u128mul small large) ≡ value small * value large % 2 ^ 128
u128mul_example = value-u128mul small large small-IsU128 large-IsU128

abbrev is_blank : ℕ → Bool
is_blank c = c == 32

u128tos_example : ReadsBack is_blank 255 16 (u128tos 255 16)
u128tos_example =
    u128tos-stou128 is_blank 255 16 (λ d h. ground arith) (omega arith) (omega arith) (omega arith)
