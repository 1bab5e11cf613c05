-- ===== src/NetAddr/Bits.antt =====
-- The comparisons of prefixes decide equality of the leading bits.
use ubgpsuite.Base.{
  ℕ, zero, suc, ◌+◌, ◌-◌, ◌*◌, ◌/◌, ◌%◌, ◌^◌, ◌<◌, ◌≡◌, refl, ap, ◌↔◌, inl, inr, Bool, true,
  bit_and, ltb, ◌==◌, ==_iff, IsBytes, Mem, holds_below, holds_below-at, arith, Bool-cases,
}
use native.Mathlib.Nat.{pow-suc, div-div-eq-div-mul}
use ubgpsuite.NetAddr.{same_bytes, byte_mask}

-- Bit `i` of an address, counted from the most significant bit of its first byte.
abbrev pub bit_at : Mem → ℕ → ℕ
bit_at m i = m (i / 8) / 2 ^ (7 - i % 8) % 2

-- The two addresses agree on their first `n` bits.
abbrev pub SameBits : Mem → Mem → ℕ → Type 0
SameBits a b n = (i : ℕ) → i < n → bit_at a i ≡ bit_at b i

-- A byte masked to its `k` leading bits.
masks_leading : ℕ → ℕ → Bool
masks_leading k x = bit_and x (byte_mask k) == x / 2 ^ (8 - k) * 2 ^ (8 - k)

mask_table : holds_below (λ k. holds_below (masks_leading k) 256) 9 ≡ true
unfolding holds_below masks_leading
mask_table = refl

pub bit_and-byte_mask :
    (k x : ℕ) → k < 9 → x < 256 → bit_and x (byte_mask k) ≡ x / 2 ^ (8 - k) * 2 ^ (8 - k)
unfolding masks_leading
bit_and-byte_mask k x hk hx =
    let row = holds_below-at (λ k. holds_below (masks_leading k) 256) k 9 hk mask_table in
    (==_iff _ _).0 (holds_below-at (masks_leading k) x 256 hx row)

seven_table : holds_below (λ x. bit_and x 7 == x % 8) 256 ≡ true
unfolding holds_below
seven_table = refl

pub bit_and_seven : (x : ℕ) → x < 256 → bit_and x 7 ≡ x % 8
bit_and_seven x h = (==_iff _ _).0 (holds_below-at (λ x. bit_and x 7 == x % 8) x 256 h seven_table)

div_pow_suc : (x s : ℕ) → x / 2 ^ suc s ≡ x / 2 ^ s / 2
div_pow_suc x s = rw (pow-suc, div-div-eq-div-mul)

-- The leading `k + 1` bits of a byte are its leading `k` bits and one bit more.
leading_step : (k x : ℕ) → k < 8 → x / 2 ^ (8 - k) ≡ x / 2 ^ (8 - suc k) / 2
leading_step k x h =
    let more : 8 - k ≡ suc (7 - k) = omega arith in
    let less : 8 - suc k ≡ 7 - k = omega arith in rw (more, less) (div_pow_suc x (7 - k))

-- Two bytes that agree on `k` leading bits.
leading_bits :
    (k x y : ℕ)
    → k < 9
    → x < 256
    → y < 256
    → ((i : ℕ) → i < k → x / 2 ^ (7 - i) % 2 ≡ y / 2 ^ (7 - i) % 2)
    → x / 2 ^ (8 - k) ≡ y / 2 ^ (8 - k)
leading_bits zero x y hk hx hy h = omega arith
leading_bits (suc k) x y hk hx hy h =
    let ih = leading_bits k x y (omega arith) hx hy (λ i hi. h i (omega arith)) in
    let less : 7 - k ≡ 8 - suc k = omega arith in
    let last = rw less at (h k (omega arith)) in
    omega (arith, ih, last, leading_step k x (omega arith), leading_step k y (omega arith))

bits_leading :
    (k x y i : ℕ)
    → k < 9
    → i < k
    → x / 2 ^ (8 - k) ≡ y / 2 ^ (8 - k)
    → x / 2 ^ (7 - i) % 2 ≡ y / 2 ^ (7 - i) % 2
bits_leading zero x y i hk hi h = absurd (omega arith)
bits_leading (suc k) x y i hk hi h = elim (Bool-cases (i == k)) [
  | inl e ↦ let same : 7 - i ≡ 8 - suc k = ground arith in rw same (ap (λ (t : ℕ). t % 2) h)
  | inr ne ↦
      bits_leading k x y i (omega arith) (ground arith)
        (omega (arith, leading_step k x (omega arith), leading_step k y (omega arith)))
]

pub same_bytes_iff : (a b : Mem) (n : ℕ) → (same_bytes a b n ≡ true) ↔ ((j : ℕ) → j < n → a j ≡ b j)
unfolding same_bytes
same_bytes_iff a b zero = ((λ _ j h. absurd (omega arith)), (λ _. refl))
same_bytes_iff a b (suc n) =
    let ih = same_bytes_iff a b n in
    (
      (λ e j h. ground (arith, ih.0 (ground arith) j)),
      (λ f. ground (arith, ih.1 (λ j h. f j (omega arith)), f n (omega arith))),
    )

-- Bit `i` of byte `j`, for `i` below `k`, when the addresses agree on `8 * j + k` bits.
bit_of :
    (a b : Mem) (j k : ℕ)
    → SameBits a b (8 * j + k)
    → k < 9
    → (i : ℕ) → i < k
    → a j / 2 ^ (7 - i) % 2 ≡ b j / 2 ^ (7 - i) % 2
bit_of a b j k h hk i hi =
    let byte : (8 * j + i) / 8 ≡ j = omega arith in
    let bit : (8 * j + i) % 8 ≡ i = omega arith in rw (byte, bit) at (h (8 * j + i) (omega arith))

same_byte : (a b : Mem) (j : ℕ) → IsBytes a → IsBytes b → SameBits a b (8 * j + 8) → a j ≡ b j
same_byte a b j ha hb h =
    let bits =
      leading_bits 8 (a j) (b j) (omega arith) (ha j) (hb j) (bit_of a b j 8 h (omega arith)) in
    omega (arith, bits)

-- Agreement on bits, byte by byte: the whole bytes below `n / 8`, and the leading bits of the next.
pub SameBits-bytes :
    (a b : Mem) (n : ℕ)
    → IsBytes a
    → IsBytes b
    → SameBits a b n ↔ (
        ((j : ℕ) → j < n / 8 → a j ≡ b j)
        × (a (n / 8) / 2 ^ (8 - n % 8) ≡ b (n / 8) / 2 ^ (8 - n % 8)))
SameBits-bytes a b n ha hb = (
  (λ h. (
    (λ j hj. same_byte a b j ha hb (λ i hi. h i (omega arith))),
    leading_bits (n % 8) (a (n / 8)) (b (n / 8)) (omega arith) (ha (n / 8)) (hb (n / 8))
        (bit_of a b (n / 8) (n % 8) (λ i hi. h i (omega arith)) (omega arith)),
  )),
  (λ (whole, rest) i hi. elim (Bool-cases (ltb (i / 8) (n / 8))) [
    | inl e ↦ rw (whole (i / 8) (ground arith))
    | inr ne ↦
        let byte : i / 8 ≡ n / 8 = ground arith in
        rw byte (bits_leading (n % 8) _ _ (i % 8) (omega arith) (omega arith) rest)
  ]),
)
