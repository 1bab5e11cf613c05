-- ===== src/Trie/Search.antt =====
-- The searches in a PATRICIA trie (src/ubgp/patriciatrie.c). A loop down the trie runs on fuel, and
-- answers nothing where it runs out.
use ubgpsuite.Base.{
  ℕ, zero, suc, Bool, ◌&&◌, ◌||◌, not, ltb, leb, ◌==◌, if◌then◌else◌, Option, none, some, List, [],
  ◌∷◌,
}
use ubgpsuite.NetAddr.{Netaddr, patcompwithmask}
use ubgpsuite.Trie.Store.{Trie, child, bit_set}

-- The node where the bits of a prefix lead: the first that is no shorter, or NULL.
unfoldable pub descend : ℕ → Trie → Netaddr → ℕ → Option ℕ
descend zero t prefix a = none
descend (suc fuel) t prefix a =
    let n = t.nodes a in
    let next = descend fuel t prefix (child n (bit_set prefix n.prefix.bitlen)) in
    if a == 0 then some 0 else if ltb n.prefix.bitlen prefix.bitlen then next else some a

-- What `patsearchexact` answers for the node where the loop ends.
abbrev pub exact_at : Trie → Netaddr → ℕ → ℕ
exact_at t prefix a =
    let n = t.nodes a in
    if a == 0
    then 0
    else if ltb prefix.bitlen n.prefix.bitlen || n.glue
    then 0
    else if patcompwithmask n.prefix prefix prefix.bitlen
    then a
    else 0

unfoldable pub patsearchexact : ℕ → Trie → Netaddr → Option ℕ
unfolding descend
patsearchexact fuel t prefix = elim (descend fuel t prefix t.head) [
  | none ↦ none
  | some a ↦ some (exact_at t prefix a)
]

-- The loop of `patsearchbest`, with the last node that matched.
unfoldable pub best_loop : ℕ → Trie → Netaddr → ℕ → ℕ → Option ℕ
best_loop zero t prefix a last = none
best_loop (suc fuel) t prefix a last =
    let n = t.nodes a in
    let b = child n (bit_set prefix n.prefix.bitlen) in
    let past = best_loop fuel t prefix b last in
    let found = best_loop fuel t prefix b a in
    if a == 0
    then some last
    else if not (ltb n.prefix.bitlen prefix.bitlen)
    then some last
    else if n.glue
    then past
    else if leb n.prefix.bitlen prefix.bitlen && patcompwithmask n.prefix prefix n.prefix.bitlen
    then found
    else some last

unfoldable pub patsearchbest : ℕ → Trie → Netaddr → Option ℕ
unfolding best_loop
patsearchbest fuel t prefix = best_loop fuel t prefix t.head 0

-- The bit that the loops over supernets look at: none past the longest prefix.
abbrev pub bit_below : Trie → Netaddr → ℕ → Bool
bit_below t prefix i = ltb i t.maxbitlen && bit_set prefix i

-- Whether a node is as `patgetsupernetsof` and `patissubnetof` test it after their loop.
abbrev pub ends_at : Trie → Netaddr → ℕ → Bool
ends_at t prefix a =
    let n = t.nodes a in
    not (a == 0)
    && not n.glue
    && leb n.prefix.bitlen prefix.bitlen
    && patcompwithmask n.prefix prefix prefix.bitlen

unfoldable pub patissubnetof_loop : ℕ → Trie → Netaddr → ℕ → Option Bool
patissubnetof_loop zero t prefix a = none
patissubnetof_loop (suc fuel) t prefix a =
    let n = t.nodes a in
    let next = patissubnetof_loop fuel t prefix (child n (bit_below t prefix n.prefix.bitlen)) in
    if not (a == 0) && ltb n.prefix.bitlen prefix.bitlen
    then (if not n.glue
        then some
            (ltb n.prefix.bitlen t.maxbitlen && patcompwithmask n.prefix prefix n.prefix.bitlen)
        else next)
    else some (ends_at t prefix a)

unfoldable pub patissubnetof : ℕ → Trie → Netaddr → Option Bool
unfolding patissubnetof_loop
patissubnetof fuel t prefix = patissubnetof_loop fuel t prefix t.head

-- The loop of `patgetsupernetsof`: the nodes that it stores in `res`.
unfoldable pub supernets_loop : ℕ → Trie → Netaddr → ℕ → Option (List ℕ)
supernets_loop zero t prefix a = none
supernets_loop (suc fuel) t prefix a =
    let n = t.nodes a in
    let next = supernets_loop fuel t prefix (child n (bit_below t prefix n.prefix.bitlen)) in
    if not (a == 0) && ltb n.prefix.bitlen prefix.bitlen
    then (if n.glue
        then next
        else if ltb n.prefix.bitlen t.maxbitlen && patcompwithmask n.prefix prefix n.prefix.bitlen
        then elim next [ none ↦ none | some rest ↦ some (a ∷ rest) ]
        else some [])
    else some (if ends_at t prefix a then a ∷ [] else [])

-- The answer is NULL on an empty trie and where `malloc` has no block.
unfoldable pub patgetsupernetsof : Bool → ℕ → Trie → Netaddr → Option (Option (List ℕ))
unfolding supernets_loop
patgetsupernetsof has_block fuel t prefix =
    if t.head == 0 || not has_block
    then some none
    else elim (supernets_loop fuel t prefix t.head) [ none ↦ none | some l ↦ some (some l) ]
