-- ===== src/NetAddr/Prefix.antt =====
-- `patcompwithmask` (src/ubgp/patriciatrie.c) and `prefixeqwithmask` (src/ubgp/netaddr.h).
use mathlib.Core.Bool.{and_assoc}
use native.Mathlib.Nat.{one-le-pow}
use ubgpsuite.Base.{
  ℕ, ◌+◌, ◌-◌, ◌*◌, ◌/◌, ◌%◌, ◌^◌, ◌≤◌, ◌<◌, ◌≡◌, refl, sym, ◌∙◌, ◌≢◌, ◌↔◌, inl, inr, true, ◌&&◌,
  ◌||◌, bit_and, ◌==◌, ==_iff, IsBytes, Mem, arith, Bool-cases, get16, get32, EachBelow,
  EachBelow-at,
}
use ubgpsuite.NetAddr.{
  Netaddr, same_bytes, whole_bytes, byte_mask, prefixeqwithmask, patcompwithmask,
}
use ubgpsuite.NetAddr.Bits.{
  SameBits, SameBits-bytes, bit_and-byte_mask, bit_and_seven, same_bytes_iff,
}

mul_cancel : (p x y : ℕ) → 0 < p → x * p ≡ y * p → x ≡ y
mul_cancel p x y h e = grind arith

-- Comparing two bytes under a mask compares their leading bits.
masked_iff :
    (k x y : ℕ)
    → k < 9
    → x < 256
    → y < 256
    → ((bit_and x (byte_mask k) == bit_and y (byte_mask k)) ≡ true)
      ↔ (x / 2 ^ (8 - k) ≡ y / 2 ^ (8 - k))
masked_iff k x y h hx hy =
    rw (bit_and-byte_mask k x h hx, bit_and-byte_mask k y h hy)
      (ground (
        arith,
        one-le-pow (8 - k) 2,
        mul_cancel (2 ^ (8 - k)) (x / 2 ^ (8 - k)) (y / 2 ^ (8 - k)),
        ==_iff (x / 2 ^ (8 - k) * 2 ^ (8 - k)) (y / 2 ^ (8 - k) * 2 ^ (8 - k)),
      ))

-- A last byte compared under the mask of its leading `mask % 8` bits, if it has any.
masked_eq :
    (mask x y : ℕ)
    → mask ≤ 128
    → x < 256
    → y < 256
    → ((bit_and mask 7 == 0 || bit_and x (byte_mask (mask % 8)) == bit_and y (byte_mask (mask % 8)))
        ≡ true)
      ↔ (x / 2 ^ (8 - mask % 8) ≡ y / 2 ^ (8 - mask % 8))
masked_eq mask x y h hx hy =
    rw (bit_and_seven mask (omega arith)) (elim (Bool-cases (mask % 8 == 0)) [
      | inl e ↦ let none_left : mask % 8 ≡ 0 = ground arith in rw none_left (ground arith)
      | inr some_left ↦ rw some_left (masked_iff (mask % 8) x y (omega arith) hx hy)
    ])

patcompwithmask_bytes :
    (a b : Netaddr) (mask : ℕ)
    → mask ≤ 128
    → IsBytes a.bytes
    → IsBytes b.bytes
    → (patcompwithmask a b mask ≡ true) ↔ (
        (same_bytes a.bytes b.bytes (mask / 8) ≡ true)
        × (a.bytes (mask / 8) / 2 ^ (8 - mask % 8) ≡ b.bytes (mask / 8) / 2 ^ (8 - mask % 8)))
unfolding patcompwithmask
patcompwithmask_bytes a b mask h ha hb = ground (
  arith,
  masked_eq mask (a.bytes (mask / 8)) (b.bytes (mask / 8)) h (ha (mask / 8)) (hb (mask / 8)),
)

-- For a mask of at most 128 bits and addresses given by bytes, `patcompwithmask` answers true
-- exactly when the two addresses agree on their first `mask` bits.
pub patcompwithmask_iff :
    (a b : Netaddr) (mask : ℕ)
    → mask ≤ 128
    → IsBytes a.bytes
    → IsBytes b.bytes
    → (patcompwithmask a b mask ≡ true) ↔ SameBits a.bytes b.bytes mask
patcompwithmask_iff a b mask h ha hb =
    let code = patcompwithmask_bytes a b mask h ha hb in
    let bytes = same_bytes_iff a.bytes b.bytes (mask / 8) in
    let spec = SameBits-bytes a.bytes b.bytes mask ha hb in
    (
      (λ e. let (whole, rest) = code.0 e in spec.1 (bytes.0 whole, rest)),
      (λ s. let (whole, rest) = spec.0 s in code.1 (bytes.1 whole, rest)),
    )

eq16_split :
    (a b : Mem) (p : ℕ)
    → IsBytes a
    → IsBytes b
    → (get16 a p == get16 b p) ≡ (a p == b p && a (p + 1) == b (p + 1))
eq16_split a b p ha hb = ground (arith, ha p, hb p, ha (p + 1), hb (p + 1))

eq32_split :
    (a b : Mem) (p : ℕ)
    → IsBytes a
    → IsBytes b
    → (get32 a p == get32 b p)
      ≡ (a p == b p && a (p + 1) == b (p + 1) && a (p + 2) == b (p + 2) && a (p + 3) == b (p + 3))
eq32_split a b p ha hb = ground (
  arith,
  eq16_split a b p ha hb,
  eq16_split a b (p + 2) ha hb,
  ha (p + 2),
  hb (p + 2),
  ha (p + 3),
  hb (p + 3),
)

-- Off the seventh byte, the words that the switch compares are the bytes up to that case.
whole_bytes-same_bytes :
    (a b : Mem)
    → IsBytes a
    → IsBytes b
    → (n : ℕ) → n < 17
    → n ≢ 7
    → whole_bytes a b n ≡ same_bytes a b n
unfolding whole_bytes same_bytes
whole_bytes-same_bytes a b ha hb n h =
    EachBelow-at (λ n. n ≢ 7 → whole_bytes a b n ≡ same_bytes a b n) 17 n each h
  where
    each : EachBelow (λ n. n ≢ 7 → whole_bytes a b n ≡ same_bytes a b n) 17
    each = (
      (
        (
          (
            (
              (
                (
                  (
                    (
                      (
                        (
                          (
                            (
                              (
                                (((tt, λ _. refl), λ _. refl), λ _. simp (eq16_split a b _ ha hb)),
                                λ _. simp (eq16_split a b _ ha hb),
                              ),
                              λ _. simp (eq32_split a b _ ha hb, and_assoc),
                            ),
                            λ _. simp (eq32_split a b _ ha hb, and_assoc),
                          ),
                          λ _. simp (eq32_split a b _ ha hb, eq16_split a b _ ha hb, and_assoc),
                        ),
                        λ ne. absurd (ne refl),
                      ),
                      λ _. simp (eq32_split a b _ ha hb, and_assoc),
                    ),
                    λ _. simp (eq32_split a b _ ha hb, and_assoc),
                  ),
                  λ _. simp (eq32_split a b _ ha hb, eq16_split a b _ ha hb, and_assoc),
                ),
                λ _. simp (eq32_split a b _ ha hb, eq16_split a b _ ha hb, and_assoc),
              ),
              λ _. simp (eq32_split a b _ ha hb, and_assoc),
            ),
            λ _. simp (eq32_split a b _ ha hb, and_assoc),
          ),
          λ _. simp (eq32_split a b _ ha hb, eq16_split a b _ ha hb, and_assoc),
        ),
        λ _. simp (eq32_split a b _ ha hb, eq16_split a b _ ha hb, and_assoc),
      ),
      λ _. simp (eq32_split a b _ ha hb, and_assoc),
    )

-- In the case of seven bytes, byte 6 of the first address is compared with itself.
whole_bytes_seven : (a b : Mem) → IsBytes a → IsBytes b → whole_bytes a b 7 ≡ same_bytes a b 6
unfolding whole_bytes same_bytes
whole_bytes_seven a b ha hb =
    simp (eq32_split a b _ ha hb, eq16_split a b _ ha hb, and_assoc) (ground arith)

prefixeqwithmask_bytes :
    (a b : Netaddr) (mask : ℕ)
    → mask ≤ 128
    → IsBytes a.bytes
    → IsBytes b.bytes
    → (prefixeqwithmask a b mask ≡ true) ↔ (
        (whole_bytes a.bytes b.bytes (mask / 8) ≡ true)
        × (a.bytes (mask / 8) / 2 ^ (8 - mask % 8) ≡ b.bytes (mask / 8) / 2 ^ (8 - mask % 8)))
unfolding prefixeqwithmask
prefixeqwithmask_bytes a b mask h ha hb =
    let last =
      masked_eq mask (a.bytes (mask / 8)) (b.bytes (mask / 8)) h (ha (mask / 8)) (hb (mask / 8)) in
    rw (bit_and_seven mask (omega arith))
      (ground (arith, (rw (bit_and_seven mask (omega arith)) at last)))

-- For a mask up to 128 bits and not from 56 to 63, and addresses given by bytes,
-- `prefixeqwithmask` answers true exactly when the two addresses agree on their first `mask` bits.
pub prefixeqwithmask_iff :
    (a b : Netaddr) (mask : ℕ)
    → mask ≤ 128
    → mask / 8 ≢ 7
    → IsBytes a.bytes
    → IsBytes b.bytes
    → (prefixeqwithmask a b mask ≡ true) ↔ SameBits a.bytes b.bytes mask
prefixeqwithmask_iff a b mask h ne ha hb =
    let code = prefixeqwithmask_bytes a b mask h ha hb in
    let words = whole_bytes-same_bytes a.bytes b.bytes ha hb (mask / 8) (omega arith) ne in
    let bytes = same_bytes_iff a.bytes b.bytes (mask / 8) in
    let spec = SameBits-bytes a.bytes b.bytes mask ha hb in
    (
      (λ e. let (whole, rest) = code.0 e in spec.1 (bytes.0 (sym words ∙ whole), rest)),
      (λ s. let (whole, rest) = spec.0 s in code.1 (words ∙ bytes.1 whole, rest)),
    )

-- For a mask from 56 to 63 and addresses given by bytes, `prefixeqwithmask` answers true exactly
-- when the addresses agree on their first 48 bits and on the bits of the mask past the first 56:
-- byte 6 is not looked at.
pub prefixeqwithmask_seventh :
    (a b : Netaddr) (mask : ℕ)
    → mask / 8 ≡ 7
    → IsBytes a.bytes
    → IsBytes b.bytes
    → (prefixeqwithmask a b mask ≡ true) ↔ (
        SameBits a.bytes b.bytes 48
        × (a.bytes 7 / 2 ^ (8 - mask % 8) ≡ b.bytes 7 / 2 ^ (8 - mask % 8)))
prefixeqwithmask_seventh a b mask h ha hb =
    let code = rw h at (prefixeqwithmask_bytes a b mask (omega arith) ha hb) in
    let words = whole_bytes_seven a.bytes b.bytes ha hb in
    let bytes = same_bytes_iff a.bytes b.bytes 6 in
    let spec = SameBits-bytes a.bytes b.bytes 48 ha hb in
    (
      (λ e.
          let (whole, rest) = code.0 e in
          (spec.1 (bytes.0 (sym words ∙ whole), omega (arith, ha 6, hb 6)), rest)),
      (λ (same, rest). code.1 (words ∙ bytes.1 (spec.0 same).0, rest)),
    )
