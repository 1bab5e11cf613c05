-- ===== src/Trie/Exact.antt =====
-- `patsearchexact` in a well-formed PATRICIA trie (src/ubgp/patriciatrie.c).
use ubgpsuite.Base.{
  ℕ, zero, suc, ◌+◌, ◌≤◌, ◌<◌, ◌≡◌, refl, ◌∙◌, sym, ap, subst, Bool, true, false, ◌||◌, not, ltb,
  ◌==◌, if_true, if_false, IsBytes, arith, Bool-cases, ◌⊎◌, inl, inr, Option, none, some,
}
use ubgpsuite.NetAddr.{Netaddr, patcompwithmask}
use ubgpsuite.NetAddr.Prefix.{patcompwithmask_iff}
use ubgpsuite.Trie.Store.{Trie, child, bit_set}
use ubgpsuite.Trie.Search.{descend, exact_at, patsearchexact}
use ubgpsuite.Trie.Shape.{
  Tree, nil, at, side, IsShape, In, Agree, IsRouted, HoldsPrefix, Missing, IsShape-bitlen,
  SameBits-bit_set,
}

-- The loop ends at NULL and no node holds the prefix, or at a node of the tree that is no shorter and
-- is the only one that may hold it.
abbrev Led : Trie → Tree → Netaddr → Option ℕ → Type 0
Led t tree p none = ⊥
Led t tree p (some a) =
    ((a ≡ 0) × Missing t.nodes tree p)
    ⊎ ((0 < a)
        × In a tree
        × (p.bitlen ≤ (t.nodes a).prefix.bitlen)
        × ((c : ℕ) → In c tree → HoldsPrefix t.nodes c p → c ≡ a))

-- The bytes of every node, and of the prefix that is sought, which is no longer than an address.
pub record Sought (t : Trie) (p : Netaddr) : Type 0 where
  pub node_bytes : (c : ℕ) → IsBytes (t.nodes c).prefix.bytes
  pub bytes : IsBytes p.bytes
  pub short : p.bitlen ≤ 128

pub not_same : (b : Bool) → b ≡ not b → ⊥
not_same true e = ground (arith, e)
not_same false e = ground (arith, e)

-- A node that holds the prefix is not on the other side of a shorter node.
not_beside :
    (t : Trie) (p : Netaddr) (i c : ℕ) (b : Bool) (tree : Tree)
    → Sought t p
    → i < p.bitlen
    → bit_set p i ≡ b
    → Agree t.nodes i (not b) tree
    → In c tree
    → HoldsPrefix t.nodes c p
    → ⊥
not_beside t p i c b tree s below bit agree h (real, _, same) =
    let other = agree c h real in
    let bits =
      SameBits-bit_set (t.nodes c).prefix p p.bitlen i (s.node_bytes c) s.bytes same below in
    not_same b (sym bit ∙ sym bits ∙ other)

-- What the node at `a` says of the two trees below it.
abbrev pub Splits : Trie → ℕ → Tree → Tree → Type 0
Splits t a l r =
    Agree t.nodes (t.nodes a).prefix.bitlen false l × Agree t.nodes (t.nodes a).prefix.bitlen true r

-- Below a node that is shorter than the prefix, only the side of the prefix may hold it.
In-side :
    (t : Trie) (p : Netaddr) (a b c : ℕ) (l r : Tree)
    → Sought t p
    → a ≡ b
    → (t.nodes a).prefix.bitlen < p.bitlen
    → Splits t a l r
    → In c (at b l r)
    → HoldsPrefix t.nodes c p
    → In c (side l r (bit_set p (t.nodes a).prefix.bitlen))
In-side t p a b c l r s same below (ll, rr) (inl e) (real, len, bits) =
    let at_node = ap (λ c. (t.nodes c).prefix.bitlen) (e ∙ sym same) in
    absurd (omega (arith, below, len, at_node))
In-side t p a b c l r s same below (ll, rr) (inr (inl h)) holds =
    let i = (t.nodes a).prefix.bitlen in
    elim (Bool-cases (bit_set p i)) [
      | inl e ↦ absurd (not_beside t p i c true l s below e ll h holds)
      | inr e ↦ subst (λ b. In c (side l r b)) (sym e) h
    ]
In-side t p a b c l r s same below (ll, rr) (inr (inr h)) holds =
    let i = (t.nodes a).prefix.bitlen in
    elim (Bool-cases (bit_set p i)) [
      | inl e ↦ subst (λ b. In c (side l r b)) (sym e) h
      | inr e ↦ absurd (not_beside t p i c false r s below e rr h holds)
    ]

pub from_side : (c b : ℕ) (l r : Tree) (bit : Bool) → In c (side l r bit) → In c (at b l r)
from_side c b l r true h = inr (inr h)
from_side c b l r false h = inr (inl h)

-- What holds below a node on the side of the prefix holds at the node.
Led-below :
    (t : Trie) (p : Netaddr) (a b : ℕ) (l r : Tree) (o : Option ℕ)
    → Sought t p
    → a ≡ b
    → (t.nodes a).prefix.bitlen < p.bitlen
    → Splits t a l r
    → Led t (side l r (bit_set p (t.nodes a).prefix.bitlen)) p o
    → Led t (at b l r) p o
Led-below t p a b l r none s same below splits h = h
Led-below t p a b l r (some d) s same below splits (inl (null, missing)) =
    inl (null, λ c h holds. missing c (In-side t p a b c l r s same below splits h holds) holds)
Led-below t p a b l r (some d) s same below splits (inr (pos, member, long, only)) = inr (
  pos,
  from_side d b l r (bit_set p (t.nodes a).prefix.bitlen) member,
  long,
  λ c h holds. only c (In-side t p a b c l r s same below splits h holds) holds,
)

-- In a tree whose first node is no shorter than the prefix, only that node may hold it.
only_first :
    (t : Trie) (p : Netaddr) (a b c : ℕ) (l r : Tree)
    → IsShape t.nodes 0 a (at b l r)
    → p.bitlen ≤ (t.nodes a).prefix.bitlen
    → In c (at b l r)
    → HoldsPrefix t.nodes c p
    → c ≡ a
only_first t p a b c l r (same, _, _, _, _) long (inl e) holds = e ∙ sym same
only_first t p a b c l r (same, _, _, left, _) long (inr (inl h)) (_, len, _) =
    let n = t.nodes a in
    let longer = IsShape-bitlen t.nodes (suc n.prefix.bitlen) n.left c l left h in
    absurd (omega (arith, longer, len, long))
only_first t p a b c l r (same, _, _, _, right) long (inr (inr h)) (_, len, _) =
    let n = t.nodes a in
    let longer = IsShape-bitlen t.nodes (suc n.prefix.bitlen) n.right c r right h in
    absurd (omega (arith, longer, len, long))

descend_lem :
    (fuel : ℕ) (t : Trie) (p : Netaddr) (lo a : ℕ) (tree : Tree)
    → Sought t p
    → IsShape t.nodes lo a tree
    → IsRouted t.nodes tree
    → lo ≤ p.bitlen
    → p.bitlen < lo + fuel
    → Led t tree p (descend fuel t p a)
unfolding descend
descend_lem zero t p lo a tree s shape routed low enough = absurd (omega arith)
descend_lem (suc fuel) t p lo a nil s shape routed low enough =
    subst (Led t nil p) (sym (if_true (a == 0) _ _ (ground (arith, shape))))
      (inl (refl, λ c h _. h))
descend_lem (suc fuel) t p lo a (at b l r) s (same, pos, long, left, right) (ll, rr, rl, rright) low
      enough =
    let n = t.nodes a in
    let real : (a == 0) ≡ false = ground (arith, pos) in
    let splits : Splits t a l r =
      subst
        (λ b.
          Agree t.nodes (t.nodes b).prefix.bitlen false l
          × Agree t.nodes (t.nodes b).prefix.bitlen true r)
        (sym same) (ll, rr) in
    elim (Bool-cases (ltb n.prefix.bitlen p.bitlen)) [
      | inr e ↦
          subst (Led t (at b l r) p)
            (sym (if_false (a == 0) _ _ real ∙ if_false (ltb n.prefix.bitlen p.bitlen) _ _ e))
            (inr (
              pos,
              inl same,
              ground (arith, e),
              λ c h holds.
                  only_first t p a b c l r (same, pos, omega arith, left, right) (ground (arith, e))
                    h holds,
            ))
      | inl e ↦
          let i = n.prefix.bitlen in
          let inner : suc i ≤ p.bitlen = ground (arith, e) in
          let enough' : p.bitlen < suc i + fuel = omega (arith, long, enough) in
          let below : Led t (side l r (bit_set p i)) p (descend fuel t p (child n (bit_set p i))) =
            elim (bit_set p i) as (λ bit. Led t (side l r bit) p (descend fuel t p (child n bit))) [
              | true ↦ descend_lem fuel t p (suc i) n.right r s right rright inner enough'
              | false ↦ descend_lem fuel t p (suc i) n.left l s left rl inner enough'
            ] in
          subst (Led t (at b l r) p)
            (sym (if_false (a == 0) _ _ real ∙ if_true (ltb n.prefix.bitlen p.bitlen) _ _ e))
            (Led-below t p a b l r _ s same (ground (arith, e)) splits below)
    ]

-- The answer of `patsearchexact`: NULL and no node of the tree holds the prefix, or a node of the tree
-- that holds it.
abbrev pub Answer : Trie → Tree → Netaddr → Option ℕ → Type 0
Answer t tree p none = ⊥
Answer t tree p (some a) =
    ((a ≡ 0) × Missing t.nodes tree p) ⊎ ((0 < a) × In a tree × HoldsPrefix t.nodes a p)

-- The test of length and kind.
unlike : (m n : ℕ) (glue : Bool) → (ltb m n || glue) ≡ true → glue ≡ false → n ≡ m → ⊥
unlike m n glue e no_glue len = ground (arith, e, no_glue, len)

alike : (m n : ℕ) (glue : Bool) → (ltb m n || glue) ≡ false → m ≤ n → (n ≡ m) × (glue ≡ false)
alike m n true e long = ground (arith, e)
alike m n false e long = ground (arith, e, long)

exact_lem :
    (t : Trie) (p : Netaddr) (a : ℕ) (tree : Tree)
    → Sought t p
    → Led t tree p (some a)
    → Answer t tree p (some (exact_at t p a))
exact_lem t p a tree s (inl (null, missing)) =
    inl (if_true (a == 0) _ _ (ground (arith, null)), missing)
exact_lem t p a tree s (inr (pos, member, long, only)) =
    let n = t.nodes a in
    let real : (a == 0) ≡ false = ground (arith, pos) in
    let comparison = patcompwithmask_iff n.prefix p p.bitlen s.short (s.node_bytes a) s.bytes in
    let null : (HoldsPrefix t.nodes a p → ⊥) → Missing t.nodes tree p =
      λ bad c h holds. bad (subst (λ c. HoldsPrefix t.nodes c p) (only c h holds) holds) in
    elim (Bool-cases (ltb p.bitlen n.prefix.bitlen || n.glue)) [
      | inl e ↦ inl (
        if_false (a == 0) _ _ real ∙ if_true (ltb p.bitlen n.prefix.bitlen || n.glue) _ _ e,
        null λ (no_glue, len, _). unlike p.bitlen n.prefix.bitlen n.glue e no_glue len,
      )
      | inr e ↦ elim (Bool-cases (patcompwithmask n.prefix p p.bitlen)) [
        | inl match_ ↦
            let found : exact_at t p a ≡ a =
              if_false (a == 0) _ _ real
              ∙ if_false (ltb p.bitlen n.prefix.bitlen || n.glue) _ _ e
              ∙ if_true (patcompwithmask n.prefix p p.bitlen) _ _ match_ in
            let (len, no_glue) = alike p.bitlen n.prefix.bitlen n.glue e long in
            subst (λ d. Answer t tree p (some d)) (sym found)
              (inr (pos, member, (no_glue, len, comparison.0 match_)))
        | inr other ↦ inl (
          if_false (a == 0) _ _ real
              ∙ if_false (ltb p.bitlen n.prefix.bitlen || n.glue) _ _ e
              ∙ if_false (patcompwithmask n.prefix p p.bitlen) _ _ other,
          null λ (_, _, bits). not_same true (sym (comparison.1 bits) ∙ other),
        )
      ]
    ]

exact-Answer :
    (t : Trie) (p : Netaddr) (tree : Tree) (o : Option ℕ)
    → Sought t p
    → Led t tree p o
    → Answer t tree p (elim o [ none ↦ none | some a ↦ some (exact_at t p a) ])
exact-Answer t p tree none s h = h
exact-Answer t p tree (some a) s h = exact_lem t p a tree s h

-- In a trie with well-formed links, in which every node routes the prefixes below it by their next
-- bit, and for a prefix of at most 128 bits: with more fuel than the prefix has bits,
-- `patsearchexact` answers a node of the trie that is no glue and has the same length and bits, or
-- NULL where there is none.
pub patsearchexact_lem :
    (fuel : ℕ) (t : Trie) (p : Netaddr) (tree : Tree)
    → Sought t p
    → IsShape t.nodes 0 t.head tree
    → IsRouted t.nodes tree
    → p.bitlen < fuel
    → Answer t tree p (patsearchexact fuel t p)
unfolding patsearchexact
patsearchexact_lem fuel t p tree s shape routed enough =
    exact-Answer t p tree (descend fuel t p t.head) s
      (descend_lem fuel t p 0 t.head tree s shape routed (omega arith) (omega (arith, enough)))
