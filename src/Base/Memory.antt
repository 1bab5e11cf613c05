-- ===== src/Base/Memory.antt =====
-- A block of memory as a function from byte offsets. A number wider than a byte is stored in network
-- order: the program writes `beswap16` or `beswap32` of it by `memcpy` (src/ubgp/endian.h).
use Prim.Native.Nat.{ℕ, ◌+◌, ◌-◌, ◌*◌, ◌/◌, ◌%◌, ◌^◌, ◌≤◌, ◌<◌}
use mathlib.Core.Path.{◌≡◌}
use mathlib.Core.Bool.{◌&&◌}
use native.Mathlib.Omega.{arith}
use ubgpsuite.Base.Tests.{ltb, leb, ◌==◌, if◌then◌else◌}

abbrev pub Mem : Type 0
Mem = ℕ → ℕ

-- Every cell holds a byte.
abbrev pub IsBytes : Mem → Type 0
IsBytes m = (j : ℕ) → m j < 256

abbrev pub put8 : Mem → ℕ → ℕ → Mem
put8 m p v j = if j == p then v % 256 else m j

abbrev pub put16 : Mem → ℕ → ℕ → Mem
put16 m p v = put8 (put8 m p (v / 256)) (p + 1) v

abbrev pub put32 : Mem → ℕ → ℕ → Mem
put32 m p v = put16 (put16 m p (v / 2 ^ 16)) (p + 2) v

abbrev pub get16 : Mem → ℕ → ℕ
get16 m p = m p * 256 + m (p + 1)

abbrev pub get32 : Mem → ℕ → ℕ
get32 m p = get16 m p * 2 ^ 16 + get16 m (p + 2)

-- `memcpy(dst + p, src + s, n)` between blocks that do not overlap.
abbrev pub copy : Mem → ℕ → Mem → ℕ → ℕ → Mem
copy dst p src s n j = if leb p j && ltb j (p + n) then src (s + (j - p)) else dst j

-- `memset(dst + p, v, n)`.
abbrev pub fill : Mem → ℕ → ℕ → ℕ → Mem
fill dst p v n j = if leb p j && ltb j (p + n) then v else dst j

pub get16-put16 : (m : Mem) (p v : ℕ) → get16 (put16 m p v) p ≡ v % 2 ^ 16
get16-put16 m p v = ground arith

pub get32-put32 : (m : Mem) (p v : ℕ) → get32 (put32 m p v) p ≡ v % 2 ^ 32
get32-put32 m p v = ground arith

-- A later word does not touch an earlier one.
pub get32-put32_below : (m : Mem) (p q v : ℕ) → p + 4 ≤ q → get32 (put32 m q v) p ≡ get32 m p
get32-put32_below m p q v h = ground arith

pub get16-put32_below : (m : Mem) (p q v : ℕ) → p + 2 ≤ q → get16 (put32 m q v) p ≡ get16 m p
get16-put32_below m p q v h = ground arith
