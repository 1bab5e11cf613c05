-- ===== src/Trie/Best.antt =====
-- `patsearchbest` in a well-formed PATRICIA trie (src/ubgp/patriciatrie.c).
use ubgpsuite.Base.{
  ℕ, suc, ◌≤◌, ◌<◌, ◌≡◌, ◌∙◌, sym, ap, subst, Bool, true, false, arith, ◌⊎◌, inl, inr, Option, none,
  some,
}
use ubgpsuite.NetAddr.{Netaddr}
use ubgpsuite.NetAddr.Bits.{SameBits}
use ubgpsuite.Trie.Store.{Trie, bit_set}
use ubgpsuite.Trie.Shape.{Tree, nil, at, side, IsShape, In, IsShape-bitlen, SameBits-bit_set}
use ubgpsuite.Trie.Exact.{Sought, Splits, not_same, from_side}

-- A node is a shorter prefix of the one that is sought.
abbrev pub Covers : Trie → Netaddr → ℕ → Type 0
Covers t p c =
    let n = t.nodes c in
    (n.glue ≡ false)
    × (n.prefix.bitlen < p.bitlen)
    × SameBits n.prefix.bytes p.bytes n.prefix.bitlen

-- The prefixes below a node that is no glue begin with its bits.
abbrev pub Extends : Trie → ℕ → Tree → Type 0
Extends t a tree =
    (c : ℕ)
    → In c tree
    → (t.nodes a).glue ≡ false
    → (t.nodes c).glue ≡ false
    → SameBits (t.nodes c).prefix.bytes (t.nodes a).prefix.bytes (t.nodes a).prefix.bitlen

abbrev pub IsNested : Trie → Tree → Type 0
IsNested t nil = Unit
IsNested t (at b l r) = Extends t b l × Extends t b r × IsNested t l × IsNested t r

-- No node of a tree covers the prefix.
abbrev pub Uncovered : Trie → Netaddr → Tree → Type 0
Uncovered t p tree = (c : ℕ) → In c tree → Covers t p c → ⊥

-- The answer for a tree: what was there before and no node of the tree, or the longest that covers
-- the prefix.
abbrev pub Best : Trie → Netaddr → Tree → ℕ → Option ℕ → Type 0
Best t p tree last none = ⊥
Best t p tree last (some d) =
    ((d ≡ last) × Uncovered t p tree)
    ⊎ (In d tree
        × Covers t p d
        × ((c : ℕ)
            → In c tree
            → Covers t p c
            → (t.nodes c).prefix.bitlen ≤ (t.nodes d).prefix.bitlen))

-- Below a node that is shorter than the prefix, only nodes on the side of the prefix cover it.
Covers-side :
    (t : Trie) (p : Netaddr) (a c : ℕ) (l r : Tree)
    → Sought t p
    → IsShape t.nodes (suc (t.nodes a).prefix.bitlen) (t.nodes a).left l
    → IsShape t.nodes (suc (t.nodes a).prefix.bitlen) (t.nodes a).right r
    → Splits t a l r
    → In c l ⊎ In c r
    → Covers t p c
    → In c (side l r (bit_set p (t.nodes a).prefix.bitlen))
Covers-side t p a c l r s left right (ll, rr) (inl h) (real, shorter, same) =
    let i = (t.nodes a).prefix.bitlen in
    let longer = IsShape-bitlen t.nodes (suc i) (t.nodes a).left c l left h in
    let bits =
      SameBits-bit_set (t.nodes c).prefix p (t.nodes c).prefix.bitlen i (s.node_bytes c) s.bytes
        same longer in
    subst (λ b. In c (side l r b)) (sym (ll c h real) ∙ bits) h
Covers-side t p a c l r s left right (ll, rr) (inr h) (real, shorter, same) =
    let i = (t.nodes a).prefix.bitlen in
    let longer = IsShape-bitlen t.nodes (suc i) (t.nodes a).right c r right h in
    let bits =
      SameBits-bit_set (t.nodes c).prefix p (t.nodes c).prefix.bitlen i (s.node_bytes c) s.bytes
        same longer in
    subst (λ b. In c (side l r b)) (sym (rr c h real) ∙ bits) h

-- A node below one that is no glue and does not match the prefix does not cover it either.
mismatch :
    (t : Trie) (p : Netaddr) (a c : ℕ) (tree : Tree)
    → (t.nodes a).glue ≡ false
    → (SameBits (t.nodes a).prefix.bytes p.bytes (t.nodes a).prefix.bitlen → ⊥)
    → Extends t a tree
    → (t.nodes a).prefix.bitlen < (t.nodes c).prefix.bitlen
    → In c tree
    → Covers t p c
    → ⊥
mismatch t p a c tree real differs extends longer h (no_glue, _, same) =
    differs λ i low. sym (extends c h real no_glue i low) ∙ same i (omega (arith, low, longer))

-- What is known of a node and of the two trees below it.
pub record Fork (t : Trie) (p : Netaddr) (a b : ℕ) (l r : Tree) : Type 0 where
  pub same : a ≡ b
  pub shorter : (t.nodes a).prefix.bitlen < p.bitlen
  pub left : IsShape t.nodes (suc (t.nodes a).prefix.bitlen) (t.nodes a).left l
  pub right : IsShape t.nodes (suc (t.nodes a).prefix.bitlen) (t.nodes a).right r
  pub splits : Splits t a l r

Fork-side :
    (t : Trie) (p : Netaddr) (a b c : ℕ) (l r : Tree)
    → Sought t p
    → Fork t p a b l r
    → In c (at b l r)
    → Covers t p c
    → (c ≡ a) ⊎ In c (side l r (bit_set p (t.nodes a).prefix.bitlen))
Fork-side t p a b c l r s f (inl e) h = inl (e ∙ sym f.same)
Fork-side t p a b c l r s f (inr below) h =
    inr (Covers-side t p a c l r s f.left f.right f.splits below h)

Fork-longer :
    (t : Trie) (p : Netaddr) (a b c : ℕ) (l r : Tree) (bit : Bool)
    → Fork t p a b l r
    → In c (side l r bit)
    → (t.nodes a).prefix.bitlen < (t.nodes c).prefix.bitlen
Fork-longer t p a b c l r true f h =
    IsShape-bitlen t.nodes (suc (t.nodes a).prefix.bitlen) (t.nodes a).right c r f.right h
Fork-longer t p a b c l r false f h =
    IsShape-bitlen t.nodes (suc (t.nodes a).prefix.bitlen) (t.nodes a).left c l f.left h

-- Past a glue node.
pub Best-glue :
    (t : Trie) (p : Netaddr) (a b last : ℕ) (l r : Tree) (o : Option ℕ)
    → Sought t p
    → Fork t p a b l r
    → (t.nodes a).glue ≡ true
    → Best t p (side l r (bit_set p (t.nodes a).prefix.bitlen)) last o
    → Best t p (at b l r) last o
Best-glue t p a b last l r none s f glue h = h
Best-glue t p a b last l r (some d) s f glue (inl (e, bare)) = inl (
  e,
  λ c h covers. elim (Fork-side t p a b c l r s f h covers) [
    | inl here ↦
        absurd (not_same true (sym glue ∙ ap (λ c. (t.nodes c).glue) (sym here) ∙ covers.0))
    | inr below ↦ bare c below covers
  ],
)
Best-glue t p a b last l r (some d) s f glue (inr (member, found, longest)) = inr (
  from_side d b l r (bit_set p (t.nodes a).prefix.bitlen) member,
  found,
  λ c h covers. elim (Fork-side t p a b c l r s f h covers) [
    | inl here ↦
        absurd (not_same true (sym glue ∙ ap (λ c. (t.nodes c).glue) (sym here) ∙ covers.0))
    | inr below ↦ longest c below covers
  ],
)

-- Past a node that covers the prefix.
pub Best-found :
    (t : Trie) (p : Netaddr) (a b last : ℕ) (l r : Tree) (o : Option ℕ)
    → Sought t p
    → Fork t p a b l r
    → Covers t p a
    → Best t p (side l r (bit_set p (t.nodes a).prefix.bitlen)) a o
    → Best t p (at b l r) last o
Best-found t p a b last l r none s f here h = h
Best-found t p a b last l r (some d) s f here (inl (e, bare)) =
    subst (λ d. Best t p (at b l r) last (some d)) (sym e)
      (inr (
        inl f.same,
        here,
        λ c h covers. elim (Fork-side t p a b c l r s f h covers) [
          | inl same ↦ omega (arith, ap (λ c. (t.nodes c).prefix.bitlen) same)
          | inr below ↦ absurd (bare c below covers)
        ],
      ))
Best-found t p a b last l r (some d) s f here (inr (member, found, longest)) =
    let bit = bit_set p (t.nodes a).prefix.bitlen in
    let longer = Fork-longer t p a b d l r bit f member in
    inr (
      from_side d b l r bit member,
      found,
      λ c h covers. elim (Fork-side t p a b c l r s f h covers) [
        | inl same ↦ omega (arith, longer, ap (λ c. (t.nodes c).prefix.bitlen) same)
        | inr below ↦ longest c below covers
      ],
    )

-- At a node that does not match the prefix, no node of the tree covers it.
pub Best-none :
    (t : Trie) (p : Netaddr) (a b : ℕ) (l r : Tree)
    → Fork t p a b l r
    → Extends t a l
    → Extends t a r
    → (t.nodes a).glue ≡ false
    → (SameBits (t.nodes a).prefix.bytes p.bytes (t.nodes a).prefix.bitlen → ⊥)
    → Uncovered t p (at b l r)
Best-none t p a b l r f el er real differs c (inl e) covers = differs (
    subst (λ c. SameBits (t.nodes c).prefix.bytes p.bytes (t.nodes c).prefix.bitlen)
      (e ∙ sym f.same) (covers.2))
Best-none t p a b l r f el er real differs c (inr (inl h)) covers =
    mismatch t p a c l real differs el (Fork-longer t p a b c l r false f h) h covers
Best-none t p a b l r f el er real differs c (inr (inr h)) covers =
    mismatch t p a c r real differs er (Fork-longer t p a b c l r true f h) h covers
