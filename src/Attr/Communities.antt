-- ===== src/Attr/Communities.antt =====
-- `putcommunities` and `putlargecommunities` (src/ubgp/bgpattribs.c).
use native.Mathlib.Nat.{add-zero}
use ubgpsuite.Base.{
  ℕ, ◌+◌, ◌%◌, ◌^◌, ◌≤◌, ◌<◌, ◌≡◌, ◌∙◌, ◌↔◌, Mem, put32, get32, copy, get32-put32, none, some,
  arith,
}
use ubgpsuite.Attr.Header.{getattrlen, getattrdata, put_attr_len, attr_limit}
use ubgpsuite.Attr.Build.{appendcommunities, putcommunities, putlargecommunities}
use ubgpsuite.Attr.Append.{Grows, Grows-written, written-after}

word_of :
    (m c : Mem) (end i n : ℕ)
    → ((j : ℕ) → j < n → m (end + j) ≡ c j)
    → i + 4 ≤ n
    → get32 m (end + i) ≡ get32 c i
word_of m c end i n bytes h =
    ground (arith, bytes i, bytes (i + 1), bytes (i + 2), bytes (i + 2 + 1))

appendcommunities_inv :
    (m : Mem) (p : ℕ) (c : Mem) (n : ℕ) (m' : Mem)
    → appendcommunities m p c n ≡ some m'
    → (put_attr_len (copy m (getattrdata m p + getattrlen m p) c 0 n) p (getattrlen m p + n) ≡ m')
      × (getattrlen m p + n ≤ attr_limit m p)
unfolding appendcommunities
appendcommunities_inv m p c n m' e = ground arith

-- A community that is appended makes the attribute grow by its bytes, which follow the payload.
appendcommunities_appends :
    (m : Mem) (p : ℕ) (c : Mem) (n : ℕ) (m' : Mem)
    → appendcommunities m p c n ≡ some m'
    → Grows m p n m' × ((j : ℕ) → j < n → m' (getattrdata m p + getattrlen m p + j) ≡ c j)
appendcommunities_appends m p c n m' e =
    let (written, room) = appendcommunities_inv m p c n m' e in
    let end = getattrdata m p + getattrlen m p in
    let raw = copy m end c 0 n in
    let same : (j : ℕ) → j < end → raw j ≡ m j = λ j h. ground arith in
    rw (← written) (
      Grows-written m raw p n same room,
      λ j h.
          written-after m raw p n (same p (ground arith)) room (end + j) (omega arith)
          ∙ ground arith,
    )

putcommunities_appends :
    (m : Mem) (p c : ℕ) (m' : Mem)
    → putcommunities m p c ≡ some m'
    → Grows m p 4 m' × (get32 m' (getattrdata m p + getattrlen m p + 0) ≡ c % 2 ^ 32)
unfolding putcommunities
putcommunities_appends m p c m' e =
    let (grows, bytes) = appendcommunities_appends m p (put32 (λ j. 0) 0 c) 4 m' e in
    let end = getattrdata m p + getattrlen m p in
    (grows, word_of m' (put32 (λ j. 0) 0 c) end 0 4 bytes (omega arith) ∙ get32-put32 (λ j. 0) 0 c)

-- `putcommunities` fails exactly when four bytes more do not fit the length field.
pub putcommunities-none_iff :
    (m : Mem) (p c : ℕ) → (putcommunities m p c ≡ none) ↔ (attr_limit m p < getattrlen m p + 4)
unfolding putcommunities
putcommunities-none_iff m p c = ground arith

-- Where `putcommunities` succeeds, the attribute has grown by four bytes, which are the community in
-- network order, and the rest of it is unchanged.
pub putcommunities_lem :
    (m : Mem) (p c : ℕ) (m' : Mem)
    → putcommunities m p c ≡ some m'
    → Grows m p 4 m' × (get32 m' (getattrdata m p + getattrlen m p) ≡ c % 2 ^ 32)
putcommunities_lem m p c m' e = rw add-zero at (putcommunities_appends m p c m' e)

-- Where `putlargecommunities` succeeds, the attribute has grown by twelve bytes, which are the three
-- numbers of the community in network order, and the rest of it is unchanged.
putlargecommunities_lem :
    (m : Mem) (p global hilocal lolocal : ℕ) (m' : Mem)
    → putlargecommunities m p global hilocal lolocal ≡ some m'
    → let end = getattrdata m p + getattrlen m p in
      Grows m p 12 m'
      × (get32 m' (end + 0) ≡ global % 2 ^ 32)
      × (get32 m' (end + 4) ≡ hilocal % 2 ^ 32)
      × (get32 m' (end + 8) ≡ lolocal % 2 ^ 32)
unfolding putlargecommunities
putlargecommunities_lem m p global hilocal lolocal m' e =
    let c = put32 (put32 (put32 (λ j. 0) 0 global) 4 hilocal) 8 lolocal in
    let (grows, bytes) = appendcommunities_appends m p c 12 m' e in
    let end = getattrdata m p + getattrlen m p in
    (
      grows,
      word_of m' c end 0 12 bytes (omega arith) ∙ ground arith,
      word_of m' c end 4 12 bytes (omega arith) ∙ ground arith,
      word_of m' c end 8 12 bytes (omega arith) ∙ ground arith,
    )
