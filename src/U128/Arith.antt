-- ===== src/U128/Arith.antt =====
-- The two-word integers compute modulo 2^128, as `__uint128_t` does (src/ubgp/u128.h).
use ubgpsuite.Base.{
  ℕ, ◌+◌, ◌-◌, ◌*◌, ◌%◌, ◌^◌, ◌≤◌, ◌<◌, ◌≡◌, ◌∙◌, ap, ltb, ◌==◌, if◌then◌else◌, arith,
}
use native.Mathlib.Nat.{mul-le-mul_left, mul-le-mul_right}
use ubgpsuite.U128.Words.{
  U128, u128from, tou128, u128add, u128sub, low32, high32, part, combine, sum_products, u128mul,
  compare64, u128cmp, u128eq,
}

abbrev pub value : U128 → ℕ
value u = u.upper * 2 ^ 64 + u.lower

-- Both words have 64 bits.
abbrev pub IsU128 : U128 → Type 0
IsU128 u = (u.upper < 2 ^ 64) × (u.lower < 2 ^ 64)

-- For two integers whose words have 64 bits, `u128add` gives the sum of their values modulo 2^128, in
-- words of 64 bits.
pub value-u128add :
    (a b : U128)
    → IsU128 a
    → IsU128 b
    → (value (u128add a b) ≡ (value a + value b) % 2 ^ 128) × IsU128 (u128add a b)
unfolding u128add
value-u128add a b (a1, a0) (b1, b0) = (ground arith, (ground arith, ground arith))

-- For two integers whose words have 64 bits, `u128sub` gives the difference of their values modulo
-- 2^128 where the lower words need no borrow. Where they do, the borrow is added to the upper word and
-- not taken from it: the result is 2^65 more than the difference.
pub value-u128sub :
    (a b : U128)
    → IsU128 a
    → IsU128 b
    → value (u128sub a b)
      ≡ (value a + 2 ^ 128 - value b + (if ltb a.lower b.lower then 2 ^ 65 else 0)) % 2 ^ 128
unfolding u128sub
value-u128sub a b (a1, a0) (b1, b0) = ground arith

-- For two integers whose words have 64 bits, `u128cmp` orders them as their values are ordered, and
-- `u128eq` holds exactly where the values are equal.
u128cmp_lem :
    (a b : U128)
    → IsU128 a
    → IsU128 b
    → (u128cmp a b ≡ compare64 (value a) (value b)) × (u128eq a b ≡ (value a == value b))
unfolding u128cmp u128eq
u128cmp_lem a b (a1, a0) (b1, b0) = (ground arith, ground arith)

le_pred : (x : ℕ) → x < 2 ^ 32 → x ≤ 2 ^ 32 - 1
le_pred x h = omega arith

-- The product of 32-bit parts fits a word.
part_lem : (x y : ℕ) → x < 2 ^ 32 → y < 2 ^ 32 → part x y ≡ x * y
part_lem x y hx hy =
    let bound : x * y ≤ (2 ^ 32 - 1) * (2 ^ 32 - 1) =
      omega
        (arith, mul-le-mul_right y (le_pred x hx), mul-le-mul_left (2 ^ 32 - 1) (le_pred y hy)) in
    omega (arith, bound)

value-combine :
    (first second third fourth : ℕ)
    → first < 2 ^ 40
    → second < 2 ^ 40
    → third < 2 ^ 40
    → fourth < 2 ^ 32
    → value (combine first second third fourth)
      ≡ (first * 2 ^ 96 + second * 2 ^ 64 + third * 2 ^ 32 + fourth) % 2 ^ 128
unfolding combine
value-combine first second third fourth h1 h2 h3 h4 =
    let x = u128from (first * 2 ^ 32 % 2 ^ 64) 0 in
    let y = u128from (high32 third) (third * 2 ^ 32 % 2 ^ 64) in
    let z = u128from second 0 in
    let w = tou128 fourth in
    let (e1, v1) = value-u128add x y (omega arith, omega arith) (omega arith, omega arith) in
    let (e2, v2) = value-u128add (u128add x y) z v1 (omega (arith, h2), omega arith) in
    let (e3, _) = value-u128add (u128add (u128add x y) z) w v2 (omega arith, omega (arith, h4)) in
    let vx : value x ≡ first * 2 ^ 96 % 2 ^ 128 = omega arith in
    let vy : value y ≡ third * 2 ^ 32 = omega arith in e3 ∙ omega (arith, e1, e2, vx, vy)

-- The carries of the added products are the digits of their weighted sum.
value-sum_products :
    (p00 p01 p02 p03 p10 p11 p12 p20 p21 p30 : ℕ)
    → p00 < 2 ^ 64
    → p01 < 2 ^ 64
    → p02 < 2 ^ 64
    → p03 < 2 ^ 64
    → p10 < 2 ^ 64
    → p11 < 2 ^ 64
    → p12 < 2 ^ 64
    → p20 < 2 ^ 64
    → p21 < 2 ^ 64
    → p30 < 2 ^ 64
    → value (sum_products p00 p01 p02 p03 p10 p11 p12 p20 p21 p30)
      ≡ (p00 + (p01 + p10) * 2 ^ 32 + (p02 + p11 + p20) * 2 ^ 64 + (p03 + p12 + p21 + p30) * 2 ^ 96)
        % 2 ^ 128
unfolding sum_products
value-sum_products p00 p01 p02 p03 p10 p11 p12 p20 p21 p30 h00 h01 h02 h03 h10 h11 h12 h20 h21 h30 =
    let first =
      low32 p03 + high32 p02 + (low32 p12 + high32 p11) + (low32 p21 + high32 p20) + low32 p30 in
    let second = low32 p02 + high32 p01 + (low32 p11 + high32 p10) + low32 p20 in
    let third = low32 p01 + high32 p00 + low32 p10 in
    value-combine first second third (low32 p00) (omega arith) (omega arith) (omega arith)
      (omega arith)
    ∙ omega arith

product_parts :
    (a b a3 a2 a1 a0 b3 b2 b1 b0 : ℕ)
    → a ≡ ((a3 * 2 ^ 32 + a2) * 2 ^ 32 + a1) * 2 ^ 32 + a0
    → b ≡ ((b3 * 2 ^ 32 + b2) * 2 ^ 32 + b1) * 2 ^ 32 + b0
    → a * b
      ≡ (a3 * b3 * 2 ^ 32 * 2 ^ 32 + (a3 * b2 + a2 * b3) * 2 ^ 32 + (a3 * b1 + a2 * b2 + a1 * b3))
          * (2 ^ 32 * 2 ^ 32 * 2 ^ 32 * 2 ^ 32)
        + (a0 * b3 + a1 * b2 + a2 * b1 + a3 * b0) * (2 ^ 32 * 2 ^ 32 * 2 ^ 32)
        + (a0 * b2 + a1 * b1 + a2 * b0) * (2 ^ 32 * 2 ^ 32)
        + (a0 * b1 + a1 * b0) * 2 ^ 32
        + a0 * b0
product_parts a b a3 a2 a1 a0 b3 b2 b1 b0 ha hb =
    ap (λ t. t * b) ha
    ∙ ap (λ t. (((a3 * 2 ^ 32 + a2) * 2 ^ 32 + a1) * 2 ^ 32 + a0) * t) hb
    ∙ omega arith

-- What lies beyond 2^128 is dropped.
carried :
    (p4 p0 p1 p2 p3 total : ℕ)
    → total
      ≡ p4 * (2 ^ 32 * 2 ^ 32 * 2 ^ 32 * 2 ^ 32)
        + p3 * (2 ^ 32 * 2 ^ 32 * 2 ^ 32)
        + p2 * (2 ^ 32 * 2 ^ 32)
        + p1 * 2 ^ 32
        + p0
    → (p0 + p1 * 2 ^ 32 + p2 * 2 ^ 64 + p3 * 2 ^ 96) % 2 ^ 128 ≡ total % 2 ^ 128
carried p4 p0 p1 p2 p3 total h = omega (arith, h)

-- For two integers whose words have 64 bits, `u128mul`, which adds the products of 32-bit parts, gives
-- the product of their values modulo 2^128.
pub value-u128mul :
    (a b : U128) → IsU128 a → IsU128 b → value (u128mul a b) ≡ value a * value b % 2 ^ 128
unfolding u128mul
value-u128mul a b (ha1, ha0) (hb1, hb0) =
    let a3 = high32 a.upper in
    let a2 = low32 a.upper in
    let a1 = high32 a.lower in
    let a0 = low32 a.lower in
    let b3 = high32 b.upper in
    let b2 = low32 b.upper in
    let b1 = high32 b.lower in
    let b0 = low32 b.lower in
    let above_ =
      a3 * b3 * 2 ^ 32 * 2 ^ 32 + (a3 * b2 + a2 * b3) * 2 ^ 32 + (a3 * b1 + a2 * b2 + a1 * b3) in
    let whole =
      product_parts (value a) (value b) a3 a2 a1 a0 b3 b2 b1 b0 (omega arith) (omega arith) in
    value-sum_products (part a0 b0) (part a0 b1) (part a0 b2) (part a0 b3) (part a1 b0) (part a1 b1)
      (part a1 b2) (part a2 b0) (part a2 b1) (part a3 b0) (omega arith) (omega arith) (omega arith)
      (omega arith) (omega arith) (omega arith) (omega arith) (omega arith) (omega arith)
      (omega arith)
    ∙ rw
        (
          part_lem a0 b0 (omega arith) (omega arith),
          part_lem a0 b1 (omega arith) (omega arith),
          part_lem a0 b2 (omega arith) (omega arith),
          part_lem a0 b3 (omega arith) (omega arith),
          part_lem a1 b0 (omega arith) (omega arith),
          part_lem a1 b1 (omega arith) (omega arith),
          part_lem a1 b2 (omega arith) (omega arith),
          part_lem a2 b0 (omega arith) (omega arith),
          part_lem a2 b1 (omega arith) (omega arith),
          part_lem a3 b0 (omega arith) (omega arith),
        )
        (carried above_ (a0 * b0) (a0 * b1 + a1 * b0) (a0 * b2 + a1 * b1 + a2 * b0)
          (a0 * b3 + a1 * b2 + a2 * b1 + a3 * b0) (value a * value b) whole)
