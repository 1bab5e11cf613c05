-- ===== src/Attr/Append.antt =====
-- What an append does to an attribute.
use ubgpsuite.Base.{
  ℕ, zero, suc, ◌+◌, ◌*◌, ◌%◌, ◌^◌, ◌≤◌, ◌<◌, ◌≡◌, refl, ◌∙◌, ◌⊎◌, ◌↔◌, Mem, put8, put32, get32,
  get32-put32, none, some, arith,
}
use ubgpsuite.Attr.Header.{getattrlen, getattrdata, put_attr_len, attr_limit, attr_flags, attr_code}
use ubgpsuite.Attr.Build.{put_seg32, write_seg32, putasseg32}

-- `m'` is the attribute at `p` in `m` with `n` bytes more: the header but for the length, and the
-- payload so far, are unchanged, and the length has grown within its field.
pub record Grows (m : Mem) (p n : ℕ) (m' : Mem) : Type 0 where
  pub same_flags : attr_flags m' p ≡ attr_flags m p
  pub same_code : attr_code m' p ≡ attr_code m p
  pub longer : getattrlen m' p ≡ getattrlen m p + n
  pub fits : getattrlen m' p ≤ attr_limit m p
  pub same_start : getattrdata m' p ≡ getattrdata m p
  pub before : (j : ℕ) → j < getattrlen m p → m' (getattrdata m p + j) ≡ m (getattrdata m p + j)

-- Writing the new length, over a memory `m'` whose flags at `p` are those of `m`.
module _ (m m' : Mem) (p n : ℕ) (same : m' p ≡ m p)
    (room : getattrlen m p + n ≤ attr_limit m p) where
  pub length-written : getattrlen (put_attr_len m' p (getattrlen m p + n)) p ≡ getattrlen m p + n
  length-written = ground (arith, same)

  pub start-written : getattrdata (put_attr_len m' p (getattrlen m p + n)) p ≡ getattrdata m p
  start-written = ground (arith, same)

  -- What stands past the header is what was written.
  pub written-after :
      (j : ℕ) → getattrdata m p ≤ j → put_attr_len m' p (getattrlen m p + n) j ≡ m' j
  written-after j h = ground (arith, same)

-- Writing past the payload and then the new length makes the attribute grow.
pub Grows-written :
    (m m' : Mem) (p n : ℕ)
    → ((j : ℕ) → j < getattrdata m p + getattrlen m p → m' j ≡ m j)
    → getattrlen m p + n ≤ attr_limit m p
    → Grows m p n (put_attr_len m' p (getattrlen m p + n))
Grows-written m m' p n same room =
    let flags = same p (ground arith) in
    record {
      same_flags = ground (arith, flags);
      same_code = ground (arith, flags, same (p + 1) (ground arith));
      longer = length-written m m' p n flags room;
      fits = rw (length-written m m' p n flags room) room;
      same_start = start-written m m' p n flags room;
      before = λ j h. ground (arith, flags, same (getattrdata m p + j) (omega arith));
    }

-- The loop writes the ASes one after the other, and nothing below its pointer.
put_seg32_below :
    (n : ℕ) (m : Mem) (ptr : ℕ) (seg : ℕ → ℕ) (j : ℕ) → j < ptr → put_seg32 m ptr seg n j ≡ m j
unfolding put_seg32
put_seg32_below zero m ptr seg j h = refl
put_seg32_below (suc n) m ptr seg j h =
    put_seg32_below n (put32 m ptr (seg 0)) (ptr + 4) (λ i. seg (suc i)) j (omega arith)
    ∙ ground arith

put_seg32_at :
    (n : ℕ) (m : Mem) (ptr : ℕ) (seg : ℕ → ℕ) (i : ℕ)
    → i < n
    → get32 (put_seg32 m ptr seg n) (ptr + 4 * i) ≡ seg i % 2 ^ 32
unfolding put_seg32
put_seg32_at zero m ptr seg i h = absurd (omega arith)
put_seg32_at (suc n) m ptr seg zero h =
    let m' = put32 m ptr (seg 0) in
    let below = put_seg32_below n m' (ptr + 4) (λ i. seg (suc i)) in
    rw
      (
        below (ptr + 4 * 0) (omega arith),
        below (ptr + 4 * 0 + 1) (omega arith),
        below (ptr + 4 * 0 + 2) (omega arith),
        below (ptr + 4 * 0 + 2 + 1) (omega arith),
      )
      (ground (arith, get32-put32 m ptr (seg 0)))
put_seg32_at (suc n) m ptr seg (suc i) h =
    let next : ptr + 4 * suc i ≡ ptr + 4 + 4 * i = omega arith in
    rw next (put_seg32_at n (put32 m ptr (seg 0)) (ptr + 4) (λ i. seg (suc i)) i (omega arith))

-- `putasseg32` fails exactly when the segment does not fit the length field of the attribute or has
-- more than 255 ASes.
putasseg32-none_iff :
    (m : Mem) (p seg_type : ℕ) (seg : ℕ → ℕ) (count : ℕ)
    → (putasseg32 m p seg_type seg count ≡ none)
      ↔ ((attr_limit m p < getattrlen m p + (count * 4 + 2)) ⊎ (255 < count))
unfolding putasseg32
putasseg32-none_iff m p seg_type seg count = ground arith

putasseg32_inv :
    (m : Mem) (p seg_type : ℕ) (seg : ℕ → ℕ) (count : ℕ) (m' : Mem)
    → putasseg32 m p seg_type seg count ≡ some m'
    → (put_attr_len
          (write_seg32 m (getattrdata m p + getattrlen m p) seg_type seg count)
          p
          (getattrlen m p + (count * 4 + 2))
        ≡ m')
      × (getattrlen m p + (count * 4 + 2) ≤ attr_limit m p)
      × (count ≤ 255)
unfolding putasseg32
putasseg32_inv m p seg_type seg count m' e = ground arith

-- Where `putasseg32` succeeds, the attribute has grown by one segment within its limit, with its
-- header and the payload before unchanged, and the segment is the type, the count and the ASes in
-- network order.
pub putasseg32_appends :
    (m : Mem) (p seg_type : ℕ) (seg : ℕ → ℕ) (count : ℕ) (m' : Mem)
    → putasseg32 m p seg_type seg count ≡ some m'
    → let end = getattrdata m p + getattrlen m p in
      Grows m p (count * 4 + 2) m'
      × (m' end ≡ seg_type % 256)
      × (m' (end + 1) ≡ count)
      × ((i : ℕ) → i < count → get32 m' (end + 2 + 4 * i) ≡ seg i % 2 ^ 32)
putasseg32_appends m p seg_type seg count m' e =
    let (written, room, small) = putasseg32_inv m p seg_type seg count m' e in
    let end = getattrdata m p + getattrlen m p in
    let raw = write_seg32 m end seg_type seg count in
    let header = put8 (put8 m end seg_type) (end + 1) count in
    let below = put_seg32_below count header (end + 2) seg in
    let same : (j : ℕ) → j < end → raw j ≡ m j = λ j h. below j (omega arith) ∙ ground arith in
    let after = written-after m raw p (count * 4 + 2) (same p (ground arith)) room in
    rw (← written) (
      Grows-written m raw p (count * 4 + 2) same room,
      after end (omega arith) ∙ below end (omega arith) ∙ ground arith,
      after (end + 1) (omega arith) ∙ below (end + 1) (omega arith) ∙ ground arith,
      λ i h.
          rw
            (
              after (end + 2 + 4 * i) (omega arith),
              after (end + 2 + 4 * i + 1) (omega arith),
              after (end + 2 + 4 * i + 2) (omega arith),
              after (end + 2 + 4 * i + 2 + 1) (omega arith),
            )
            (put_seg32_at count header (end + 2) seg i h),
    )
