-- ===== src/U128/Text.antt =====
-- 128-bit integers and their text, with the compiler's own 128-bit type: an integer is a number below
-- 2^128 (src/ubgp/u128.h, src/ubgp/u128.c). A string is the list of its characters without the NUL at
-- its end.
use ubgpsuite.Base.{
  ℕ, zero, suc, ◌+◌, ◌-◌, ◌*◌, ◌/◌, ◌%◌, ◌^◌, Bool, true, false, ◌&&◌, ◌||◌, not, ltb, leb, ◌==◌,
  if◌then◌else◌, Option, none, some, List, [], ◌∷◌,
}

abbrev pub u128_max : ℕ
u128_max = 2 ^ 128 - 1

unfoldable pub u128muladdu : ℕ → ℕ → ℕ → ℕ
u128muladdu a b c = (a * b % 2 ^ 128 + c) % 2 ^ 128

unfoldable pub u128neg : ℕ → ℕ
u128neg u = (2 ^ 128 - u) % 2 ^ 128

-- `digval`: the answer -1 is nothing.
unfoldable pub digval : ℕ → Option ℕ
digval ch =
    if leb 48 ch && leb ch 57
    then some (ch - 48)
    else if leb 65 ch && leb ch 90
    then some (ch - 65 + 10)
    else if leb 97 ch && leb ch 122
    then some (ch - 97 + 10)
    else none

-- What `stou128` answers: the integer, whether it sets `errno` to ERANGE, and what it leaves of the
-- string.
pub record Parsed : Type 0 where
  pub value : ℕ
  pub erange : Bool
  pub rest : List ℕ

-- The loop over the digits.
unfoldable pub read_digits : ℕ → ℕ → Bool → List ℕ → Parsed
read_digits base u erange [] = record { value = u; erange = erange; rest = [] }
read_digits base u erange (c ∷ s) =
    let stop : Parsed = record { value = u; erange = erange; rest = c ∷ s } in
    elim (digval c) [
      | none ↦ stop
      | some dig ↦
          let v = u128muladdu u base dig in
          let more = read_digits base v erange s in
          let over = read_digits base u128_max true s in
          if not (ltb dig base) then stop else if ltb v u then over else more
    ]

-- `isspace` is the C library's.
unfoldable pub skip_spaces : (ℕ → Bool) → List ℕ → List ℕ
skip_spaces isspace [] = []
skip_spaces isspace (c ∷ s) = let rest = skip_spaces isspace s in if isspace c then rest else c ∷ s

-- The sign, of which the answer is whether it is a minus.
abbrev pub take_sign : List ℕ → Bool × List ℕ
take_sign [] = (false, [])
take_sign (c ∷ s) = if (c == 45) || (c == 43) then (c == 45, s) else (false, c ∷ s)

-- Whether the string begins with 0x or 0X.
abbrev pub has_0x : List ℕ → Bool
has_0x (c ∷ d ∷ s) = (c == 48) && ((d == 120) || (d == 88))
has_0x _ = false

abbrev pub starts_0 : List ℕ → Bool
starts_0 (c ∷ s) = c == 48
starts_0 _ = false

abbrev pub skip {ℓ} : {A : Type ℓ} → ℕ → List A → List A
skip zero s = s
skip (suc n) [] = []
skip (suc n) (c ∷ s) = skip n s

-- The base and the digits.
abbrev pub take_prefix : ℕ → List ℕ → ℕ × List ℕ
take_prefix base s =
    if base == 0
    then (if has_0x s then (16, skip 2 s) else if starts_0 s then (8, skip 1 s) else (10, s))
    else if base == 16
    then (if has_0x s then (16, skip 2 s) else (16, s))
    else (base, s)

unfoldable pub stou128 : (ℕ → Bool) → List ℕ → ℕ → Parsed
unfolding skip_spaces read_digits u128neg
stou128 isspace s base =
    let signed = take_sign (skip_spaces isspace s) in
    let digits = take_prefix base signed.1 in
    let r = read_digits digits.0 0 false digits.1 in
    if signed.0 then record r { value = u128neg r.value } else r

-- The characters of `digs`.
abbrev pub digit : ℕ → ℕ
digit d = if ltb d 10 then 48 + d else 87 + d

-- The loop of `u128tos`, with the room that is left in front of `ptr`: nothing where it would write
-- outside the buffer.
unfoldable pub write_digits : ℕ → ℕ → ℕ → List ℕ → Option (ℕ × List ℕ)
write_digits zero base quot s = none
write_digits (suc room) base quot s =
    let rest = write_digits room base (quot / base) (digit (quot % base) ∷ s) in
    if not (quot / base == 0) then rest else some (room, digit (quot % base) ∷ s)

-- A character in front.
abbrev pub push : ℕ → Option (ℕ × List ℕ) → Option (ℕ × List ℕ)
push c none = none
push c (some (zero, s)) = none
push c (some (suc room, s)) = some (room, c ∷ s)

-- The size of `buf` in `u128tos`: a sign or prefix of two, a digit for each bit, and the NUL.
abbrev pub buffer_size : ℕ
buffer_size = 2 + 16 * 8 + 1

-- The 0x of base 16, and the 0 of base 8 but for the number 0.
abbrev pub add_prefix : ℕ → ℕ → Option (ℕ × List ℕ) → Option (ℕ × List ℕ)
add_prefix u base digits =
    let prefixed = if base == 16 then push 48 (push 120 digits) else digits in
    if (base == 8) && not (u == 0) then push 48 prefixed else prefixed

-- The answer is the string and the room in front of it.
unfoldable pub u128tos : ℕ → ℕ → Option (ℕ × List ℕ)
u128tos u base =
    let base' = if ltb base 2 || ltb 36 base then 10 else base in
    add_prefix u base' (write_digits (buffer_size - 1) base' u [])
