-- ===== src/Trie/Shape.antt =====
-- What a well-formed PATRICIA trie is (src/ubgp/patriciatrie.c): along the links the prefixes grow
-- longer, and below a node the bit after its prefix says which child a prefix is under.
use ubgpsuite.Base.{
  ℕ, suc, ◌-◌, ◌/◌, ◌%◌, ◌^◌, ◌≤◌, ◌<◌, ◌≡◌, refl, ◌∙◌, sym, ap, subst, Bool, true, false, not,
  ◌==◌, if◌then◌else◌, bit_and, IsBytes, arith, ◌⊎◌, inl, inr, holds_below, holds_below-at,
}
use ubgpsuite.NetAddr.{Netaddr}
use ubgpsuite.NetAddr.Bits.{SameBits}
use ubgpsuite.Trie.Store.{Node, bit_set}

-- The addresses of the nodes, as a tree.
pub data Tree : Type 0 where
  nil : Tree
  at : ℕ → Tree → Tree → Tree

abbrev pub side : Tree → Tree → Bool → Tree
side l r right = if right then r else l

-- The links from an address are those of a tree, and every prefix is at least `lo` bits long and
-- longer than the one above it.
abbrev pub IsShape : (ℕ → Node) → ℕ → ℕ → Tree → Type 0
IsShape nodes lo a nil = a ≡ 0
IsShape nodes lo a (at b l r) =
    (a ≡ b)
    × (0 < a)
    × (lo ≤ (nodes a).prefix.bitlen)
    × IsShape nodes (suc (nodes a).prefix.bitlen) (nodes a).left l
    × IsShape nodes (suc (nodes a).prefix.bitlen) (nodes a).right r

abbrev pub In : ℕ → Tree → Type 0
In c nil = ⊥
In c (at b l r) = (c ≡ b) ⊎ In c l ⊎ In c r

-- The prefixes of a tree have the same value of one bit, but for those of glue nodes.
abbrev pub Agree : (ℕ → Node) → ℕ → Bool → Tree → Type 0
Agree nodes i bit t = (c : ℕ) → In c t → (nodes c).glue ≡ false → bit_set (nodes c).prefix i ≡ bit

abbrev pub IsRouted : (ℕ → Node) → Tree → Type 0
IsRouted nodes nil = Unit
IsRouted nodes (at b l r) =
    Agree nodes (nodes b).prefix.bitlen false l
    × Agree nodes (nodes b).prefix.bitlen true r
    × IsRouted nodes l
    × IsRouted nodes r

-- A node holds a prefix: the same length, and the same bits up to it.
abbrev pub HoldsPrefix : (ℕ → Node) → ℕ → Netaddr → Type 0
HoldsPrefix nodes c p =
    ((nodes c).glue ≡ false)
    × ((nodes c).prefix.bitlen ≡ p.bitlen)
    × SameBits (nodes c).prefix.bytes p.bytes p.bitlen

-- No node of a tree holds a prefix.
abbrev pub Missing : (ℕ → Node) → Tree → Netaddr → Type 0
Missing nodes t p = (c : ℕ) → In c t → HoldsPrefix nodes c p → ⊥

pub IsShape-bitlen :
    (nodes : ℕ → Node) (lo a c : ℕ) (t : Tree)
    → IsShape nodes lo a t
    → In c t
    → lo ≤ (nodes c).prefix.bitlen
IsShape-bitlen nodes lo a c nil shape h = absurd h
IsShape-bitlen nodes lo a c (at b l r) (same, _, long, _, _) (inl e) =
    subst (λ c. lo ≤ (nodes c).prefix.bitlen) (same ∙ sym e) long
IsShape-bitlen nodes lo a c (at b l r) (same, _, long, left, _) (inr (inl h)) =
    let h' = IsShape-bitlen nodes (suc (nodes a).prefix.bitlen) (nodes a).left c l left h in
    omega (arith, long, h')
IsShape-bitlen nodes lo a c (at b l r) (same, _, long, _, right) (inr (inr h)) =
    let h' = IsShape-bitlen nodes (suc (nodes a).prefix.bitlen) (nodes a).right c r right h in
    omega (arith, long, h')

-- The test of a bit, on every byte.
unfoldable bit_test : ℕ → ℕ → Bool
bit_test k x =
    if bit_and x (128 / 2 ^ k) == 0 then x / 2 ^ (7 - k) % 2 == 0 else x / 2 ^ (7 - k) % 2 == 1

bit_table : holds_below (λ k. holds_below (bit_test k) 256) 8 ≡ true
unfolding holds_below bit_test
bit_table = refl

bit_test_at : (k x : ℕ) → k < 8 → x < 256 → bit_test k x ≡ true
bit_test_at k x hk hx =
    holds_below-at (bit_test k) x 256 hx
      (holds_below-at (λ k. holds_below (bit_test k) 256) k 8 hk bit_table)

bit_lem :
    (k x y : ℕ)
    → k < 8
    → x < 256
    → y < 256
    → x / 2 ^ (7 - k) % 2 ≡ y / 2 ^ (7 - k) % 2
    → (bit_and x (128 / 2 ^ k) == 0) ≡ (bit_and y (128 / 2 ^ k) == 0)
unfolding bit_test
bit_lem k x y hk hx hy h = ground (arith, h, bit_test_at k x hk hx, bit_test_at k y hk hy)

-- Prefixes with the same bits answer the same test.
pub SameBits-bit_set :
    (p q : Netaddr) (n i : ℕ)
    → IsBytes p.bytes
    → IsBytes q.bytes
    → SameBits p.bytes q.bytes n
    → i < n
    → bit_set p i ≡ bit_set q i
SameBits-bit_set p q n i hp hq same h = ap not (
    bit_lem (i % 8) (p.bytes (i / 8)) (q.bytes (i / 8)) (omega arith) (hp (i / 8)) (hq (i / 8))
      (same i h))
