-- ===== src/Trie/Longest.antt =====
-- `patsearchbest` answers the longest prefix that covers another (src/ubgp/patriciatrie.c).
use ubgpsuite.Base.{
  ℕ, zero, suc, ◌+◌, ◌≤◌, ◌<◌, ◌≡◌, refl, ◌∙◌, sym, ap, subst, true, false, ◌&&◌, not, ltb, leb,
  ◌==◌, if_true, if_false, arith, Bool-cases, inl, inr,
}
use ubgpsuite.NetAddr.{Netaddr, patcompwithmask}
use ubgpsuite.NetAddr.Prefix.{patcompwithmask_iff}
use ubgpsuite.Trie.Store.{Trie, child, bit_set}
use ubgpsuite.Trie.Search.{best_loop, patsearchbest}
use ubgpsuite.Trie.Shape.{Tree, nil, at, side, IsShape, Agree, IsRouted, IsShape-bitlen}
use ubgpsuite.Trie.Exact.{Sought, not_same}
use ubgpsuite.Trie.Best.{Extends, IsNested, Uncovered, Best, Fork, Best-glue, Best-found, Best-none}

-- A tree whose first node is no shorter than the prefix covers it nowhere.
too_long :
    (t : Trie) (p : Netaddr) (a b : ℕ) (l r : Tree)
    → IsShape t.nodes 0 a (at b l r)
    → p.bitlen ≤ (t.nodes a).prefix.bitlen
    → Uncovered t p (at b l r)
too_long t p a b l r (same, pos, _, left, right) long c h (_, shorter, _) =
    let shape : IsShape t.nodes (t.nodes a).prefix.bitlen a (at b l r) =
      (same, pos, omega arith, left, right) in
    let longer = IsShape-bitlen t.nodes (t.nodes a).prefix.bitlen a c (at b l r) shape h in
    omega (arith, longer, shorter, long)

best_loop_lem :
    (fuel : ℕ) (t : Trie) (p : Netaddr) (lo a last : ℕ) (tree : Tree)
    → Sought t p
    → IsShape t.nodes lo a tree
    → IsRouted t.nodes tree
    → IsNested t tree
    → lo ≤ p.bitlen
    → p.bitlen < lo + fuel
    → Best t p tree last (best_loop fuel t p a last)
unfolding best_loop
best_loop_lem zero t p lo a last tree s shape routed nested low enough = absurd (omega arith)
best_loop_lem (suc fuel) t p lo a last nil s shape routed nested low enough =
    subst (Best t p nil last) (sym (if_true (a == 0) _ _ (ground (arith, shape))))
      (inl (refl, λ c h _. h))
best_loop_lem (suc fuel) t p lo a last (at b l r) s (same, pos, long, left, right)
      (ll, rr, rl, rright) (el, er, nl, nr) low enough =
    let n = t.nodes a in
    let i = n.prefix.bitlen in
    let real : (a == 0) ≡ false = ground (arith, pos) in
    elim (Bool-cases (ltb i p.bitlen)) [
      | inr e ↦
          subst (Best t p (at b l r) last)
            (sym (if_false (a == 0) _ _ real ∙ if_true (not (ltb i p.bitlen)) _ _ (ap not e)))
            (inl (
              refl,
              too_long t p a b l r (same, pos, omega arith, left, right) (ground (arith, e)),
            ))
      | inl e ↦
          let inner : suc i ≤ p.bitlen = ground (arith, e) in
          let enough' : p.bitlen < suc i + fuel = omega (arith, long, enough) in
          let fork : Fork t p a b l r = record {
            same = same;
            shorter = ground (arith, e);
            left = left;
            right = right;
            splits =
                subst
                  (λ b.
                    Agree t.nodes (t.nodes b).prefix.bitlen false l
                    × Agree t.nodes (t.nodes b).prefix.bitlen true r)
                  (sym same) (ll, rr);
          } in
          let below : (last : ℕ)
              → Best t p (side l r (bit_set p i)) last
                  (best_loop fuel t p (child n (bit_set p i)) last) =
            λ last.
              elim (bit_set p i)
                as (λ bit. Best t p (side l r bit) last (best_loop fuel t p (child n bit) last)) [
                  | true ↦
                      best_loop_lem fuel t p (suc i) n.right last r s right rright nr inner enough'
                  | false ↦ best_loop_lem fuel t p (suc i) n.left last l s left rl nl inner enough'
                ] in
          let start = if_false (a == 0) _ _ real ∙ if_false (not (ltb i p.bitlen)) _ _ (ap not e) in
          elim (Bool-cases n.glue) [
            | inl glue ↦
                subst (Best t p (at b l r) last) (sym (start ∙ if_true n.glue _ _ glue))
                  (Best-glue t p a b last l r _ s fork glue (below last))
            | inr plain ↦
                let enough_bits : i ≤ 128 = omega (arith, inner, s.short) in
                let comparison =
                  patcompwithmask_iff n.prefix p i enough_bits (s.node_bytes a) s.bytes in
                let known : leb i p.bitlen ≡ true = ground (arith, inner) in
                let on = start ∙ if_false n.glue _ _ plain in
                elim (Bool-cases (patcompwithmask n.prefix p i)) [
                  | inl match_ ↦
                      subst (Best t p (at b l r) last)
                        (sym (
                          on
                          ∙ if_true (leb i p.bitlen && patcompwithmask n.prefix p i) _ _
                              (rw (known, match_) refl)))
                        (Best-found t p a b last l r _ s fork
                          (plain, fork.shorter, comparison.0 match_) (below a))
                  | inr other ↦
                      subst (Best t p (at b l r) last)
                        (sym (
                          on
                          ∙ if_false (leb i p.bitlen && patcompwithmask n.prefix p i) _ _
                              (rw (known, other) refl)))
                        (inl (
                          refl,
                          Best-none t p a b l r fork (subst (λ b. Extends t b l) (sym same) el)
                              (subst (λ b. Extends t b r) (sym same) er) plain
                              λ bits. not_same true (sym (comparison.1 bits) ∙ other),
                        ))
                ]
          ]
    ]

-- In a trie with well-formed links, in which every node routes the prefixes below it by their next
-- bit and those below a node that is no glue begin with its bits, and for a prefix of at most 128
-- bits: with more fuel than the prefix has bits, `patsearchbest` answers NULL where no node that is no
-- glue is a shorter prefix of it, and otherwise the longest such node. A node with the prefix itself
-- is never the answer.
pub patsearchbest_lem :
    (fuel : ℕ) (t : Trie) (p : Netaddr) (tree : Tree)
    → Sought t p
    → IsShape t.nodes 0 t.head tree
    → IsRouted t.nodes tree
    → IsNested t tree
    → p.bitlen < fuel
    → Best t p tree 0 (patsearchbest fuel t p)
unfolding patsearchbest
patsearchbest_lem fuel t p tree s shape routed nested enough =
    best_loop_lem fuel t p 0 t.head 0 tree s shape routed nested (omega arith)
      (omega (arith, enough))
