-- ===== src/U128/Words.antt =====
-- The 128-bit integers that are made of two 64-bit words, for compilers without `__uint128_t` or
-- with UBGP_C_U128 (src/ubgp/u128.h, src/ubgp/u128.c).
use ubgpsuite.Base.{
  ℕ, ◌+◌, ◌-◌, ◌*◌, ◌/◌, ◌%◌, ◌^◌, Bool, ◌&&◌, not, ltb, ◌==◌, if◌then◌else◌, bit_and, bit_or,
  bit_xor,
}

pub record U128 : Type 0 where
  pub upper : ℕ
  pub lower : ℕ

-- A Boolean in arithmetic.
abbrev pub to_nat : Bool → ℕ
to_nat b = if b then 1 else 0

abbrev pub u128from : ℕ → ℕ → U128
u128from up lw = record { upper = up; lower = lw }

abbrev pub tou128 : ℕ → U128
tou128 u = record { upper = 0; lower = u }

unfoldable pub u128add : U128 → U128 → U128
u128add a b =
    let t = (a.lower + b.lower) % 2 ^ 64 in
    record { upper = (a.upper + (b.upper + to_nat (ltb t a.lower)) % 2 ^ 64) % 2 ^ 64; lower = t }

unfoldable pub u128addu : U128 → ℕ → U128
unfolding u128add
u128addu a b = u128add a (tou128 b)

-- A difference of 64-bit words is taken modulo 2^64.
abbrev pub minus64 : ℕ → ℕ → ℕ
minus64 x y = (x + 2 ^ 64 - y) % 2 ^ 64

unfoldable pub u128sub : U128 → U128 → U128
u128sub a b =
    let t = minus64 a.lower b.lower in
    record { upper = minus64 a.upper (minus64 b.upper (to_nat (ltb a.lower t))); lower = t }

unfoldable pub u128subu : U128 → ℕ → U128
unfolding u128sub
u128subu a b = u128sub a (tou128 b)

unfoldable pub u128neg : U128 → U128
unfolding u128sub
u128neg u = u128sub (record { upper = 0; lower = 0 }) u

-- The low and the high half of a word.
abbrev pub low32 : ℕ → ℕ
low32 x = x % 2 ^ 32

abbrev pub high32 : ℕ → ℕ
high32 x = x / 2 ^ 32

-- The product of two 32-bit parts, in 64 bits.
abbrev pub part : ℕ → ℕ → ℕ
part x y = x * y % 2 ^ 64

-- The four columns added up, with their carries.
unfoldable pub combine : ℕ → ℕ → ℕ → ℕ → U128
unfolding u128add
combine first32 second32 third32 fourth32 =
    let x = u128from (first32 * 2 ^ 32 % 2 ^ 64) 0 in
    let y = u128from (high32 third32) (third32 * 2 ^ 32 % 2 ^ 64) in
    let z = u128from second32 0 in let w = tou128 fourth32 in u128add (u128add (u128add x y) z) w

-- The products of the parts added up, with `pij` the product of part `i` of the first number and part
-- `j` of the second, counted from the least.
unfoldable pub sum_products : (p00 p01 p02 p03 p10 p11 p12 p20 p21 p30 : ℕ) → U128
unfolding combine
sum_products p00 p01 p02 p03 p10 p11 p12 p20 p21 p30 =
    combine
      (low32 p03 + high32 p02 + (low32 p12 + high32 p11) + (low32 p21 + high32 p20) + low32 p30)
      (low32 p02 + high32 p01 + (low32 p11 + high32 p10) + low32 p20)
      (low32 p01 + high32 p00 + low32 p10) (low32 p00)

unfoldable pub u128mul : U128 → U128 → U128
unfolding sum_products
u128mul a b =
    let a3 = high32 a.upper in
    let a2 = low32 a.upper in
    let a1 = high32 a.lower in
    let a0 = low32 a.lower in
    let b3 = high32 b.upper in
    let b2 = low32 b.upper in
    let b1 = high32 b.lower in
    let b0 = low32 b.lower in
    sum_products (part a0 b0) (part a0 b1) (part a0 b2) (part a0 b3) (part a1 b0) (part a1 b1)
      (part a1 b2) (part a2 b0) (part a2 b1) (part a3 b0)

unfoldable pub u128mulu : U128 → ℕ → U128
unfolding u128mul
u128mulu a b = u128mul a (tou128 b)

unfoldable pub u128muladd : U128 → U128 → U128 → U128
unfolding u128mul u128add
u128muladd a b c = u128add (u128mul a b) c

unfoldable pub u128muladdu : U128 → ℕ → ℕ → U128
unfolding u128muladd
u128muladdu a b c = u128muladd a (tou128 b) (tou128 c)

unfoldable pub u128and : U128 → U128 → U128
u128and a b = record { upper = bit_and a.upper b.upper; lower = bit_and a.lower b.lower }

unfoldable pub u128or : U128 → U128 → U128
u128or a b = record { upper = bit_or a.upper b.upper; lower = bit_or a.lower b.lower }

-- The lower word is combined with the upper word of `b`.
unfoldable pub u128xor : U128 → U128 → U128
u128xor a b = record { upper = bit_xor a.upper b.upper; lower = bit_xor a.lower b.upper }

-- The complement of a 64-bit word.
unfoldable pub u128cpl : U128 → U128
u128cpl u = record { upper = 2 ^ 64 - 1 - u.upper; lower = 2 ^ 64 - 1 - u.lower }

-- The answers of `u128cmp`: -1, 0 and 1.
pub data Sign : Type 0 where
  below same above : Sign

-- `(x > y) - (x < y)`.
abbrev pub compare64 : ℕ → ℕ → Sign
compare64 x y = if ltb y x then above else if ltb x y then below else same

unfoldable pub u128cmp : U128 → U128 → Sign
u128cmp a b =
    if not (a.upper == b.upper) then compare64 a.upper b.upper else compare64 a.lower b.lower

unfoldable pub u128eq : U128 → U128 → Bool
u128eq a b = (a.lower == b.lower) && (a.upper == b.upper)

unfoldable pub u128cmpu : U128 → ℕ → Sign
unfolding u128cmp
u128cmpu a b = u128cmp a (tou128 b)

unfoldable pub u128equ : U128 → ℕ → Bool
u128equ a b = (a.lower == b) && (a.upper == 0)

-- The shifts of 1 to 127 bits, and of 128 or more. A shift of no bits shifts a word by 64, which C
-- leaves undefined: the answer is nothing.
pub data Shifted : Type 0 where
  shifted : U128 → Shifted
  undefined : Shifted

unfoldable pub u128shl : U128 → ℕ → Shifted
u128shl u bits =
    if not (ltb bits 128)
    then shifted (record { upper = 0; lower = 0 })
    else if bits == 0
    then undefined
    else if ltb bits 64
    then shifted (record {
      upper = bit_or (u.upper * 2 ^ bits % 2 ^ 64) (u.lower / 2 ^ (64 - bits));
      lower = u.lower * 2 ^ bits % 2 ^ 64;
    })
    else shifted (record { upper = u.lower * 2 ^ (bits - 64) % 2 ^ 64; lower = 0 })

unfoldable pub u128shr : U128 → ℕ → Shifted
u128shr u bits =
    if not (ltb bits 128)
    then shifted (record { upper = 0; lower = 0 })
    else if bits == 0
    then undefined
    else if ltb bits 64
    then shifted (record {
      upper = u.upper / 2 ^ bits;
      lower = bit_or (u.upper * 2 ^ (64 - bits) % 2 ^ 64) (u.lower / 2 ^ bits);
    })
    else shifted (record { upper = 0; lower = u.upper / 2 ^ (bits - 64) })
