-- ===== src/Trie/Remove.antt =====
-- Removal from a PATRICIA trie (src/ubgp/patriciatrie.c).
use ubgpsuite.Base.{ℕ, ◌+◌, ◌-◌, ◌%◌, ◌^◌, ◌&&◌, not, ◌==◌, if◌then◌else◌, Option, none, some}
use ubgpsuite.NetAddr.{Netaddr}
use ubgpsuite.Trie.Store.{
  Trie, Platform, child, set_child, set_node, setpnodeparent, setpnodeglue, putfreenode,
}
use ubgpsuite.Trie.Search.{patsearchexact}
use ubgpsuite.Trie.Insert.{replace_below}

-- A node with two children is put on the list of free nodes while the trie still links to it, which
-- writes over its prefix.
unfoldable pub remove_inner : Platform → Trie → ℕ → Trie
unfolding putfreenode
remove_inner sys t n = setpnodeglue (putfreenode sys t n) n

-- A node without children, and its parent if that is glue.
unfoldable pub remove_leaf : Platform → Trie → ℕ → Trie
unfolding putfreenode
remove_leaf sys t n =
    let parent = (t.nodes n).parent in
    let t' = putfreenode sys t n in
    let bit = (t'.nodes parent).right == n in
    let cut = set_node t' parent (λ p. set_child p bit 0) in
    let sibling = child (cut.nodes parent) (not bit) in
    let above = (cut.nodes parent).parent in
    let linked = setpnodeparent (replace_below cut above parent sibling) sibling above in
    if parent == 0
    then record t' { head = 0 }
    else if not (cut.nodes parent).glue
    then cut
    else putfreenode sys linked parent

-- A node with one child, which takes its place.
unfoldable pub remove_single : Platform → Trie → ℕ → Trie
unfolding putfreenode
remove_single sys t n =
    let below = child (t.nodes n) (not ((t.nodes n).right == 0)) in
    let parent = (t.nodes n).parent in
    let t' = putfreenode sys (setpnodeparent t below parent) n in replace_below t' parent n below

-- The answer is the payload, or NULL where the prefix is not there. `nprefs` is counted down before
-- that is looked at, in 32 bits.
unfoldable pub patremove : ℕ → Platform → Trie → Netaddr → Option (Trie × ℕ)
unfolding patsearchexact remove_inner remove_leaf remove_single
patremove fuel sys t prefix = elim (patsearchexact fuel t prefix) [
  | none ↦ none
  | some a ↦
      let t' = record t { nprefs = (t.nprefs + 2 ^ 32 - 1) % 2 ^ 32 } in
      let n = t.nodes a in
      let payload = n.payload in
      if a == 0
      then some (t', 0)
      else if not (n.left == 0) && not (n.right == 0)
      then some (remove_inner sys t' a, payload)
      else if n.left == 0 && n.right == 0
      then some (remove_leaf sys t' a, payload)
      else some (remove_single sys t' a, payload)
]
