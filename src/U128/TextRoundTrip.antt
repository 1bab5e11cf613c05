-- ===== src/U128/TextRoundTrip.antt =====
-- `stou128` reads back what `u128tos` writes (src/ubgp/u128.c).
use ubgpsuite.Base.{
  ℕ, zero, suc, ◌+◌, ◌-◌, ◌*◌, ◌/◌, ◌%◌, ◌^◌, ◌≤◌, ◌<◌, ◌≡◌, refl, subst, ◌∙◌, sym, ap, Bool, false,
  ◌&&◌, ◌||◌, not, ltb, ◌==◌, if◌then◌else◌, if_true, if_false, Option, none, some, List, [], ◌∷◌,
  arith, Bool-cases, inl, inr,
}
use native.Mathlib.Nat.{mul-le-mul_left, div-add-mod', mod-lt, pow-suc}
use ubgpsuite.U128.Text.{
  digval, u128muladdu, read_digits, skip_spaces, take_prefix, stou128, digit, write_digits, push,
  add_prefix, buffer_size, u128tos,
}

-- A string that begins with a digit, which `isspace` says is no space.
abbrev StartsDigit : (ℕ → Bool) → List ℕ → Type 0
StartsDigit isspace [] = ⊥
StartsDigit isspace (c ∷ s) = (isspace c ≡ false) × ((c == 45) ≡ false) × ((c == 43) ≡ false)

-- What is known of a result of the loop: the room that is left, and that reading the string is
-- reading the number and then the characters that it stands in front of.
abbrev Written : (ℕ → Bool) → ℕ → ℕ → ℕ → List ℕ → Option (ℕ × List ℕ) → Type 0
Written isspace base u room s none = ⊥
Written isspace base u room s (some (left, r)) =
    (room ≤ left)
    × StartsDigit isspace r
    × (read_digits base 0 false r ≡ read_digits base u false s)

digval-digit : (d : ℕ) → d < 36 → digval (digit d) ≡ some d
unfolding digval
digval-digit d h = ground arith

muladdu_small : (base u d : ℕ) → u * base + d < 2 ^ 128 → u128muladdu u base d ≡ u * base + d
unfolding u128muladdu
muladdu_small base u d small = omega (arith, small)

-- Reading a digit of a number that fits.
read_digit :
    (base u d : ℕ) (s : List ℕ)
    → 0 < base
    → base ≤ 36
    → d < base
    → u * base + d < 2 ^ 128
    → read_digits base u false (digit d ∷ s) ≡ read_digits base (u * base + d) false s
unfolding read_digits
read_digit base u d s pos hb hd small =
    let grows : u ≤ u * base + d = omega (arith, mul-le-mul_left u pos) in
    rw (read_digits, digval-digit d (omega (arith, hb, hd)), muladdu_small base u d small)
      (if_false (not (ltb d base)) _ _ (ground (arith, hd))
        ∙ if_false (ltb (u * base + d) u) _ _ (ground (arith, grows)))

-- A quotient and its remainder give the number back, and the quotient is at most half of it.
quot_rem :
    (u base : ℕ)
    → 2 ≤ base
    → (u / base * base + u % base ≡ u) × (u % base < base) × (u / base * 2 ≤ u)
quot_rem u base two =
    let whole = div-add-mod' u base in
    let half = mul-le-mul_left (u / base) two in
    (whole, mod-lt u (omega arith), omega (arith, whole, half))

IsCLocale-digit :
    (isspace : ℕ → Bool) (d : ℕ) (s : List ℕ)
    → isspace (digit d) ≡ false
    → StartsDigit isspace (digit d ∷ s)
IsCLocale-digit isspace d s h = (h, ground arith, ground arith)

-- The last digit of a number.
last_digit :
    (isspace : ℕ → Bool) (base u k room : ℕ) (s : List ℕ)
    → ((d : ℕ) → d < 36 → isspace (digit d) ≡ false)
    → 2 ≤ base
    → base ≤ 36
    → u < 2 ^ 128
    → u / base ≡ 0
    → k ≤ room
    → Written isspace base u k s (some (room, digit (u % base) ∷ s))
last_digit isspace base u k room s spaces two hb small one_digit enough =
    let (whole, less, _) = quot_rem u base two in
    let same : 0 * base + u % base ≡ u = ap (λ q. q * base + u % base) (sym one_digit) ∙ whole in
    (
      enough,
      IsCLocale-digit isspace (u % base) s (spaces (u % base) (omega (arith, less, hb))),
      read_digit base 0 (u % base) s (omega (arith, two)) hb less (omega (arith, same, small))
          ∙ ap (λ v. read_digits base v false s) same,
    )

-- Reading the digits in front of the last one is reading the quotient.
more_digits :
    (isspace : ℕ → Bool) (base u k : ℕ) (s : List ℕ) (o : Option (ℕ × List ℕ))
    → 2 ≤ base
    → base ≤ 36
    → u < 2 ^ 128
    → Written isspace base (u / base) k (digit (u % base) ∷ s) o
    → Written isspace base u k s o
more_digits isspace base u k s none two hb small h = h
more_digits isspace base u k s (some (left, r)) two hb small (room, starts, reads) =
    let (whole, less, _) = quot_rem u base two in
    (
      room,
      starts,
      reads
          ∙ read_digit base (u / base) (u % base) s (omega (arith, two)) hb less
              (omega (arith, whole, small))
          ∙ ap (λ v. read_digits base v false s) whole,
    )

-- With room for the digits and `k` characters more, the loop writes within the buffer.
write_digits_lem :
    (isspace : ℕ → Bool) (r k room base u : ℕ) (s : List ℕ)
    → ((d : ℕ) → d < 36 → isspace (digit d) ≡ false)
    → 2 ≤ base
    → base ≤ 36
    → u < 2 ^ suc r
    → u < 2 ^ 128
    → r + k < room
    → Written isspace base u k s (write_digits room base u s)
unfolding write_digits
write_digits_lem isspace r k zero base u s spaces two hb fits small enough = absurd (omega arith)
write_digits_lem isspace zero k (suc room) base u s spaces two hb fits small enough =
    let few : u < 2 = omega (arith, fits) in
    let (_, _, half) = quot_rem u base two in
    let one_digit : u / base ≡ 0 = omega (arith, few, half) in
    subst (Written isspace base u k s)
      (sym (if_false (not (u / base == 0)) _ _ (ground (arith, one_digit))))
      (last_digit isspace base u k room s spaces two hb small one_digit (omega (arith, enough)))
write_digits_lem isspace (suc r) k (suc room) base u s spaces two hb fits small enough =
    let (whole, less, half) = quot_rem u base two in
    elim (Bool-cases (u / base == 0)) [
      | inl e ↦
          subst (Written isspace base u k s) (sym (if_false (not (u / base == 0)) _ _ (ap not e))) (
            last_digit isspace base u k room s spaces two hb small (ground (arith, e))
              (omega (arith, enough)))
      | inr e ↦
          let smaller : u / base < 2 ^ suc r = omega (arith, half, fits, pow-suc 2 (suc r)) in
          subst (Written isspace base u k s) (sym (if_true (not (u / base == 0)) _ _ (ap not e))) (
            more_digits isspace base u k s _ two hb small (
              write_digits_lem isspace r k room base (u / base) (digit (u % base) ∷ s) spaces two hb
                smaller (omega (arith, half, small)) (omega (arith, enough))))
    ]

-- A string that begins with a digit has no spaces and no sign to skip.
stou128_starts :
    (isspace : ℕ → Bool) (base : ℕ) (s : List ℕ)
    → StartsDigit isspace s
    → stou128 isspace s base ≡ read_digits (take_prefix base s).0 0 false (take_prefix base s).1
unfolding stou128 skip_spaces
stou128_starts isspace base [] h = absurd h
stou128_starts isspace base (c ∷ s) (space, minus, plus) = rw (space, minus, plus) refl

-- The answer of `u128tos` is read back as the number, without an error and to its end.
abbrev pub ReadsBack : (ℕ → Bool) → ℕ → ℕ → Option (ℕ × List ℕ) → Type 0
ReadsBack isspace u base none = ⊥
ReadsBack isspace u base (some (room, s)) =
    stou128 isspace s base ≡ record { value = u; erange = false; rest = [] }

-- Without a prefix.
plain_reads :
    (isspace : ℕ → Bool) (u base k : ℕ) (o : Option (ℕ × List ℕ))
    → (base == 0) ≡ false
    → (base == 16) ≡ false
    → Written isspace base u k [] o
    → ReadsBack isspace u base o
unfolding read_digits
plain_reads isspace u base k none e0 e16 h = h
plain_reads isspace u base k (some (room, s)) e0 e16 (_, starts, reads) =
    stou128_starts isspace base s starts ∙ rw (e0, e16) reads

-- With 0x in front.
hex_reads :
    (isspace : ℕ → Bool) (u k : ℕ) (o : Option (ℕ × List ℕ))
    → isspace 48 ≡ false
    → 2 ≤ k
    → Written isspace 16 u k [] o
    → ReadsBack isspace u 16 (push 48 (push 120 o))
unfolding read_digits
hex_reads isspace u k none zero_ two h = h
hex_reads isspace u k (some (zero, s)) zero_ two (enough, _, _) =
    absurd (omega (arith, enough, two))
hex_reads isspace u k (some (suc zero, s)) zero_ two (enough, _, _) =
    absurd (omega (arith, enough, two))
hex_reads isspace u k (some (suc (suc room), s)) zero_ two (_, starts, reads) =
    stou128_starts isspace 16 (48 ∷ 120 ∷ s) (zero_, refl, refl) ∙ reads

-- With 0 in front.
octal_reads :
    (isspace : ℕ → Bool) (u k : ℕ) (o : Option (ℕ × List ℕ))
    → isspace 48 ≡ false
    → 1 ≤ k
    → Written isspace 8 u k [] o
    → ReadsBack isspace u 8 (push 48 o)
unfolding read_digits
octal_reads isspace u k none zero_ one_ h = h
octal_reads isspace u k (some (zero, s)) zero_ one_ (enough, _, _) =
    absurd (omega (arith, enough, one_))
octal_reads isspace u k (some (suc room, s)) zero_ one_ (_, starts, reads) =
    stou128_starts isspace 8 (48 ∷ s) (zero_, refl, refl)
    ∙ read_digit 8 0 0 s (omega arith) (omega arith) (omega arith) (omega arith)
    ∙ reads

add_prefix_lem :
    (isspace : ℕ → Bool) (u base : ℕ) (o : Option (ℕ × List ℕ))
    → isspace 48 ≡ false
    → 2 ≤ base
    → Written isspace base u 2 [] o
    → ReadsBack isspace u base (add_prefix u base o)
add_prefix_lem isspace u base o zero_ two h =
    let not_zero : (base == 0) ≡ false = ground (arith, two) in
    elim (Bool-cases (base == 16)) [
      | inl e ↦
          let hex : base ≡ 16 = ground (arith, e) in
          subst (λ b. Written isspace b u 2 [] o → ReadsBack isspace u b (add_prefix u b o))
            (sym hex) (hex_reads isspace u 2 o zero_ (omega arith)) h
      | inr e ↦
          let plain = plain_reads isspace u base 2 o not_zero e h in
          elim (Bool-cases ((base == 8) && not (u == 0))) [
            | inl e8 ↦
                let octal : base ≡ 8 = ground (arith, e8) in
                let value_set : (u == 0) ≡ false = ground (arith, e8) in
                subst (λ b. Written isspace b u 2 [] o → ReadsBack isspace u b (add_prefix u b o))
                  (sym octal) (λ h. rw value_set (octal_reads isspace u 2 o zero_ (omega arith) h))
                  h
            | inr e8 ↦ rw (e, e8) plain
          ]
    ]

-- For a number below 2^128 and a base from 2 to 36, where `isspace` holds of no digit: `u128tos` writes
-- within its buffer, and `stou128` with the same base reads what it wrote as the number, to its end
-- and without ERANGE.
pub u128tos-stou128 :
    (isspace : ℕ → Bool) (u base : ℕ)
    → ((d : ℕ) → d < 36 → isspace (digit d) ≡ false)
    → u < 2 ^ 128
    → 2 ≤ base
    → base ≤ 36
    → ReadsBack isspace u base (u128tos u base)
unfolding u128tos
u128tos-stou128 isspace u base spaces small two hb =
    let written =
      write_digits_lem isspace 127 2 (buffer_size - 1) base u [] spaces two hb small small
        (omega arith) in
    let known : (if ltb base 2 || ltb 36 base then 10 else base) ≡ base = ground (arith, two, hb) in
    subst (λ b. ReadsBack isspace u base (add_prefix u b (write_digits (buffer_size - 1) b u [])))
      (sym known) (add_prefix_lem isspace u base _ (spaces 0 (omega arith)) two written)
