-- ===== src/Trie/Insert.antt =====
-- Insertion into a PATRICIA trie (src/ubgp/patriciatrie.c). The loops down and up the trie run on
-- fuel, and answer nothing where it runs out.
use ubgpsuite.Base.{
  ℕ, zero, suc, ◌+◌, ◌*◌, ◌/◌, ◌%◌, ◌^◌, Bool, true, false, ◌&&◌, ◌||◌, not, ltb, leb, ◌==◌,
  if◌then◌else◌, bit_and, bit_xor, Mem, Option, none, some,
}
use ubgpsuite.NetAddr.{Netaddr}
use ubgpsuite.Trie.Store.{
  Trie, Platform, child, set_child, set_node, setpnodeparent, pnodeinit, getfreenode,
}
use ubgpsuite.Trie.Search.{bit_below}

-- The loop that looks for the closest node.
unfoldable pub closest : ℕ → Trie → Netaddr → ℕ → Option ℕ
closest zero t prefix a = none
closest (suc fuel) t prefix a =
    let n = t.nodes a in
    let b = child n (bit_below t prefix n.prefix.bitlen) in
    let next = closest fuel t prefix b in
    if ltb n.prefix.bitlen prefix.bitlen || n.glue
    then (if b == 0 then some a else next)
    else some a

-- The first bit set in a byte, from `0x80 >> j` on: 8 if there is none.
unfoldable pub first_bit : ℕ → ℕ → ℕ → ℕ
first_bit zero j r = j
first_bit (suc k) j r =
    let next = first_bit k (j + 1) r in if not (bit_and r (128 / 2 ^ j) == 0) then j else next

-- The loop that compares the bytes from `i` on, with `differ_bit` so far, for at most 16 bytes.
unfoldable pub differ_loop : ℕ → ℕ → Mem → Mem → ℕ → ℕ → ℕ
unfolding first_bit
differ_loop zero i a b check_bit differ_bit = differ_bit
differ_loop (suc k) i a b check_bit differ_bit =
    let r = bit_xor (a i) (b i) in
    let next = differ_loop k (i + 1) a b check_bit (8 * i + 8) in
    if not (ltb (8 * i) check_bit)
    then differ_bit
    else if r == 0
    then next
    else 8 * i + first_bit 8 0 r

-- The number of leading bits that a prefix and a node have in common.
unfoldable pub common_bits : Netaddr → Netaddr → ℕ
unfolding differ_loop
common_bits prefix other =
    let check_bit = if ltb other.bitlen prefix.bitlen then other.bitlen else prefix.bitlen in
    let differ_bit = differ_loop 16 0 prefix.bytes other.bytes check_bit 0 in
    if ltb check_bit differ_bit then check_bit else differ_bit

-- The loop up to the last node that is at least as long as the common bits.
unfoldable pub climb : ℕ → Trie → ℕ → ℕ → Option ℕ
climb zero t differ_bit a = none
climb (suc fuel) t differ_bit a =
    let parent = (t.nodes a).parent in
    let next = climb fuel t differ_bit parent in
    if not (parent == 0) && leb differ_bit (t.nodes parent).prefix.bitlen then next else some a

-- What `patinsert` does: the trie, the node or NULL, and whether it was inserted.
pub record Inserted : Type 0 where
  pub trie : Trie
  pub node : ℕ
  pub inserted : Bool

-- A link from the parent of `old`, or from the head, moves from `old` to `new`.
abbrev pub replace_below : Trie → ℕ → ℕ → ℕ → Trie
replace_below t parent old new =
    if parent == 0
    then record t { head = new }
    else set_node t parent (λ p. set_child p (p.right == old) new)

-- The new glue node is set up with the common bits, and with the new node and `n` below it.
unfoldable pub init_glue : Trie → Netaddr → ℕ → ℕ → ℕ → ℕ → Trie
init_glue t prefix differ_bit n newnode glue =
    let bit = bit_below t prefix differ_bit in
    set_node t glue λ g.
      set_child
        (set_child
          (record g {
            prefix = record (g.prefix) { bitlen = differ_bit };
            glue = true;
            parent = (t.nodes n).parent;
          })
          bit newnode)
        (not bit) n

-- It takes the place of `n`.
unfoldable pub link_glue : Trie → ℕ → ℕ → ℕ → Trie
link_glue t n newnode glue =
    let t' = setpnodeparent t newnode glue in
    setpnodeparent (replace_below t' (t'.nodes n).parent n glue) n glue

unfoldable pub insert_glue : Platform → Trie → Netaddr → ℕ → ℕ → ℕ → Inserted
insert_glue sys t prefix differ_bit n newnode =
    let (t', glue) = getfreenode sys t in
    let made = init_glue (pnodeinit t' glue none) prefix differ_bit n newnode glue in
    if glue == 0
    then record { trie = t'; node = 0; inserted = false }
    else record { trie = link_glue made n newnode glue; node = newnode; inserted = true }

-- The new node goes below `n`, or next to it below a glue node. A third case, for a new node above
-- `n`, has the condition of the first one, so that it never runs.
unfoldable pub insert_new : Platform → Trie → Netaddr → ℕ → ℕ → Inserted
insert_new sys t prefix differ_bit n =
    let (t', newnode) = getfreenode sys t in
    let made = record (pnodeinit t' newnode (some prefix)) { nprefs = (t'.nprefs + 1) % 2 ^ 32 } in
    let len = (made.nodes n).prefix.bitlen in
    let below =
      set_node (setpnodeparent made newnode n) n
        (λ m. set_child m (bit_below made prefix len) newnode) in
    if newnode == 0
    then record { trie = t'; node = 0; inserted = false }
    else if len == differ_bit
    then record { trie = below; node = newnode; inserted = true }
    else insert_glue sys made prefix differ_bit n newnode

-- What follows the loops. A node that is glue is the answer without being set: the test of it is
-- the wrong way round.
unfoldable pub insert_at : Platform → Trie → Netaddr → ℕ → ℕ → Inserted
unfolding insert_new
insert_at sys t prefix differ_bit n =
    let set = set_node t n (λ m. record m { prefix = prefix; glue = false }) in
    if differ_bit == prefix.bitlen && (t.nodes n).prefix.bitlen == prefix.bitlen
    then (if (t.nodes n).glue then record { trie = t; node = n; inserted = false } else record {
      trie = record set { nprefs = (t.nprefs + 1) % 2 ^ 32 };
      node = n;
      inserted = false;
    })
    else insert_new sys t prefix differ_bit n

-- The first node of an empty trie.
unfoldable pub insert_first : Platform → Trie → Netaddr → Inserted
insert_first sys t prefix =
    let (t', n) = getfreenode sys t in
    let made = pnodeinit t' n (some prefix) in
    if n == 0 then record { trie = t'; node = 0; inserted = false } else record {
      trie = record made { head = n; nprefs = (made.nprefs + 1) % 2 ^ 32 };
      node = n;
      inserted = true;
    }

unfoldable pub patinsert : ℕ → Platform → Trie → Netaddr → Option Inserted
unfolding closest common_bits climb insert_at insert_first
patinsert fuel sys t prefix =
    if t.head == 0 then some (insert_first sys t prefix) else elim (closest fuel t prefix t.head) [
      | none ↦ none
      | some a ↦
          let differ_bit = common_bits prefix (t.nodes a).prefix in
          elim (climb fuel t differ_bit a) [
            | none ↦ none
            | some n ↦ some (insert_at sys t prefix differ_bit n)
          ]
    ]
