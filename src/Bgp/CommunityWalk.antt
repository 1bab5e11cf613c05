-- ===== src/Bgp/CommunityWalk.antt =====
-- Iterating the communities of an attribute with `nextcommunity` until it answers NULL
-- (src/ubgp/bgp.c).
use ubgpsuite.Base.{
  ℕ, zero, suc, ◌+◌, ◌*◌, ◌^◌, ◌≤◌, ◌<◌, ◌≡◌, ◌≢◌, refl, ◌∙◌, subst, sym, true, false, ltb, ◌==◌,
  if◌then◌else◌, if_true, if_false, get32, Mem, Option, none, some, List, [], ◌∷◌, arith,
  Bool-cases, inl, inr,
}
use ubgpsuite.Bgp.State.{
  Msg, noerr, ebadattr, Outcome, Returns, Returns-bind, ret, fault, ◌>>=◌, check_flags_r_ok,
}
use ubgpsuite.Bgp.Fields.{size_between}
use ubgpsuite.Bgp.Communities.{
  Community, community, excommunity, largecommunity, community_size, community_at, nextcommunity,
}

-- `nextcommunity` until it answers NULL, at most `n` times.
unfoldable pub read_communities : ℕ → Msg → Outcome (List Community)
read_communities zero m = fault
read_communities (suc n) m = nextcommunity m >>= λ r m. elim r [
  | none ↦ ret [] m
  | some c ↦ read_communities n m >>= λ rest m. ret (c ∷ rest) m
]

-- The number that four bytes make up, the highest first.
abbrev pub be32 : Mem → ℕ → ℕ
be32 m p = ((m p * 256 + m (p + 1)) * 256 + m (p + 2)) * 256 + m (p + 3)

-- What a community of an attribute with a code is, by its bytes: COMMUNITY is 8 and holds numbers of
-- 32 bits, EXTENDED_COMMUNITY is 16 and holds eight bytes, and any other is taken for
-- LARGE_COMMUNITY, three such numbers.
abbrev pub Denotes : Mem → ℕ → ℕ → Community → Type 0
Denotes m code p (community n) = (code ≡ 8) × (n ≡ be32 m p)
Denotes m code p (excommunity b) = (code ≡ 16) × ((j : ℕ) → j < 8 → b j ≡ m (p + j))
Denotes m code p (largecommunity g a b) =
    (code ≢ 8) × (code ≢ 16) × (g ≡ be32 m p) × (a ≡ be32 m (p + 4)) × (b ≡ be32 m (p + 8))

-- The bytes of such a community.
abbrev pub width : ℕ → ℕ
width code = if code == 8 then 4 else if code == 16 then 8 else 12

-- The list is that of the `n` communities that stand from `p` on, one behind the other.
abbrev pub Listed : Mem → ℕ → ℕ → ℕ → List Community → Type 0
Listed m code zero p [] = Unit
Listed m code zero p (c ∷ cs) = ⊥
Listed m code (suc n) p [] = ⊥
Listed m code (suc n) p (c ∷ cs) = Denotes m code p c × Listed m code n (p + width code) cs

get32-be32 : (m : Mem) (p : ℕ) → get32 m p ≡ be32 m p
get32-be32 m p = ground arith

community_at-Denotes : (m : Mem) (code p : ℕ) → Denotes m code p (community_at m code p)
community_at-Denotes m code p = elim (Bool-cases (code == 8)) [
  | inl e ↦
      subst (Denotes m code p) (sym (if_true (code == 8) (community (get32 m p)) _ e))
        (ground (arith, e), get32-be32 m p)
  | inr e ↦
      subst (Denotes m code p) (sym (if_false (code == 8) (community (get32 m p)) _ e))
        (elim (Bool-cases (code == 16)) [
          | inl k ↦
              subst (Denotes m code p) (sym (if_true (code == 16) (excommunity _) _ k))
                (ground (arith, k), λ j h. ground (arith, h))
          | inr k ↦
              subst (Denotes m code p) (sym (if_false (code == 16) _ (largecommunity _ _ _) k)) (
                ground (arith, e),
                ground (arith, k),
                get32-be32 m p,
                get32-be32 m (p + 4),
                get32-be32 m (p + 8),
              )
        ])
]

community_size_pos : (code : ℕ) → 0 < community_size code
community_size_pos code = ground arith

-- What `nextcommunity` does on a message that iterates.
abbrev next_rest : Msg → Outcome (Option Community)
next_rest m =
    let size = community_size m.ccode in
    if m.uptr == m.uend
    then ret none m
    else if ltb (size_between m.uptr m.uend) size
    then ret none (record m { err = ebadattr })
    else ret (some (community_at m.mem m.ccode m.uptr)) (record m { uptr = m.uptr + size })

nextcommunity_run :
    (m : Msg) → m.err ≡ noerr → m.flags.community ≡ true → nextcommunity m ≡ next_rest m
unfolding nextcommunity
nextcommunity_run m ok open_ = check_flags_r_ok (λ f. f.community) (λ _. none) m next_rest open_ ok

nextcommunity_end :
    (m : Msg)
    → m.err ≡ noerr
    → m.flags.community ≡ true
    → (m.uptr == m.uend) ≡ true
    → nextcommunity m ≡ ret none m
nextcommunity_end m ok open_ e = nextcommunity_run m ok open_ ∙ if_true (m.uptr == m.uend) _ _ e

nextcommunity_bad :
    (m : Msg)
    → m.err ≡ noerr
    → m.flags.community ≡ true
    → (m.uptr == m.uend) ≡ false
    → ltb (size_between m.uptr m.uend) (community_size m.ccode) ≡ true
    → nextcommunity m ≡ ret none (record m { err = ebadattr })
nextcommunity_bad m ok open_ e less =
    nextcommunity_run m ok open_
    ∙ if_false (m.uptr == m.uend) _ _ e
    ∙ if_true (ltb (size_between m.uptr m.uend) (community_size m.ccode)) _ _ less

-- The message after a community.
abbrev community_passed : Msg → Msg
community_passed m = record m { uptr = m.uptr + community_size m.ccode }

nextcommunity_more :
    (m : Msg)
    → m.err ≡ noerr
    → m.flags.community ≡ true
    → (m.uptr == m.uend) ≡ false
    → ltb (size_between m.uptr m.uend) (community_size m.ccode) ≡ false
    → nextcommunity m ≡ ret (some (community_at m.mem m.ccode m.uptr)) (community_passed m)
nextcommunity_more m ok open_ e less =
    nextcommunity_run m ok open_
    ∙ if_false (m.uptr == m.uend) _ _ e
    ∙ if_false (ltb (size_between m.uptr m.uend) (community_size m.ccode)) _ _ less

-- The answers are the communities of `n` whole ones, and bytes that remain are a bad attribute.
abbrev pub ReadCommunities : Msg → ℕ → ℕ → List Community → Msg → Type 0
ReadCommunities m n left r m' =
    Listed m.mem m.ccode n m.uptr r
    × (m'.err ≡ (if left == 0 then noerr else ebadattr))
    × (m'.uptr + left ≡ m'.uend)

-- On a message that iterates communities without an error, `n` whole ones and `left` bytes, fewer than
-- a community of the kind takes (4, 8 or 12), from `uptr` to `uend`: `nextcommunity` answers the `n`
-- communities that the bytes make up, in their order, and then NULL: a number of 32 bits in network
-- order, eight bytes, or three such numbers. It leaves BGP_EBADATTR if bytes are left over, and no
-- error otherwise.
pub nextcommunity_all :
    (n fuel left : ℕ) (m : Msg)
    → m.err ≡ noerr
    → m.flags.community ≡ true
    → left < width m.ccode
    → m.uptr + n * width m.ccode + left ≡ m.uend
    → m.uend < 2 ^ 64
    → n < fuel
    → Returns (read_communities fuel m) (ReadCommunities m n left)
unfolding read_communities
nextcommunity_all n zero left m ok open_ small whole fits enough = absurd (omega arith)
nextcommunity_all zero (suc fuel) left m ok open_ small whole fits enough =
    let at_left : m.uptr + left ≡ m.uend = omega (arith, whole) in
    elim (Bool-cases (left == 0)) [
      | inl e ↦
          let none_left : left ≡ 0 = ground (arith, e) in
          rw (nextcommunity_end m ok open_ (ground (arith, none_left, at_left)))
            (tt, rw e ok, at_left)
      | inr e ↦
          rw
            (nextcommunity_bad m ok open_ (ground (arith, e, at_left))
              (ground (arith, at_left, small, fits)))
            (tt, rw e refl, at_left)
    ]
nextcommunity_all (suc n) (suc fuel) left m ok open_ small whole fits enough =
    let size = community_size m.ccode in
    let room : m.uptr + size ≤ m.uend = omega (arith, whole) in
    let more = community_size_pos m.ccode in
    let rest =
      nextcommunity_all n fuel left (community_passed m) ok open_ small (omega (arith, whole)) fits
        (omega (arith, enough)) in
    rw (nextcommunity_more m ok open_ (ground (arith, room, more)) (ground (arith, room, fits))) (
      Returns-bind (read_communities fuel (community_passed m)) _
        (ReadCommunities (community_passed m) n left) (ReadCommunities m (suc n) left) rest
        λ r m' (all, err, place). ((community_at-Denotes m.mem m.ccode m.uptr, all), err, place))
