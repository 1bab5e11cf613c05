-- ===== src/Trie/Walk.antt =====
-- The tests for a subnet of a prefix in a trie and for a related prefix, which walk down both
-- children of a node and keep the nodes that are left in a stack (src/ubgp/patriciatrie.c).
use ubgpsuite.Base.{
  ℕ, zero, suc, ◌+◌, ◌-◌, Bool, true, false, not, ◌&&◌, ◌||◌, leb, ◌==◌, if◌then◌else◌, Mem, Option,
  none, some,
}
use ubgpsuite.NetAddr.{Netaddr, patcompwithmask}
use ubgpsuite.Trie.Store.{Trie, child, bit_set}

-- The first loop: down while the node is shorter than the prefix. `stop` says where the search
-- succeeds on the way. The answer is a node or NULL, and whether it did.
unfoldable pub start_below :
    (Trie → Netaddr → ℕ → Bool) → ℕ → Trie → Netaddr → ℕ → Option (ℕ × Bool)
start_below stop zero t prefix a = none
start_below stop (suc fuel) t prefix a =
    let next =
      start_below stop fuel t prefix
        (child (t.nodes a) (bit_set prefix (t.nodes a).prefix.bitlen)) in
    if a == 0 || leb prefix.bitlen (t.nodes a).prefix.bitlen
    then some (a, false)
    else if stop t prefix a
    then some (a, true)
    else next

-- The stack of a walk: what its slots hold, and how many are in use. It has `maxbitlen + 1` slots.
pub record Stack : Type 0 where
  pub slots : Mem
  pub used : ℕ

abbrev pub push_slot : Stack → ℕ → Stack
push_slot s a = record s { slots = λ j. if j == s.used then a else s.slots j; used = s.used + 1 }

-- The next node to look at. `*(sp--)` reads the slot above the topmost one.
unfoldable pub next_node : Trie → ℕ → Stack → Option (ℕ × Stack)
next_node t a s =
    let n = t.nodes a in
    if not (n.left == 0)
    then (if n.right == 0
        then some (n.left, s)
        else if leb s.used t.maxbitlen
        then some (n.left, push_slot s n.right)
        else none)
    else if not (n.right == 0)
    then some (n.right, s)
    else if not (s.used == 0)
    then (if leb s.used t.maxbitlen
        then some (s.slots s.used, record s { used = s.used - 1 })
        else none)
    else some (0, s)

-- The second loop. `judge` says of a node whether the walk ends there, and with which answer; `none`
-- is a lack of fuel or an access outside of the stack.
unfoldable pub walk :
    (Trie → Netaddr → ℕ → Option Bool) → ℕ → Trie → Netaddr → ℕ → Stack → Option Bool
walk judge zero t prefix a s = none
walk judge (suc fuel) t prefix a s =
    let further : Option Bool = elim (next_node t a s) [
      | none ↦ none
      | some (a', s') ↦ walk judge fuel t prefix a' s'
    ] in
    if a == 0 then some false else elim (judge t prefix a) [ some r ↦ some r | none ↦ further ]

-- A node that is no glue ends the walk of `patissupernetof` either way.
abbrev pub judge_supernet : Trie → Netaddr → ℕ → Option Bool
judge_supernet t prefix a =
    let n = t.nodes a in
    if n.glue then none else some (patcompwithmask n.prefix prefix prefix.bitlen)

abbrev pub judge_related : Trie → Netaddr → ℕ → Option Bool
judge_related t prefix a =
    let n = t.nodes a in
    if not n.glue && patcompwithmask n.prefix prefix prefix.bitlen then some true else none

abbrev pub never : Trie → Netaddr → ℕ → Bool
never t prefix a = false

abbrev pub covers : Trie → Netaddr → ℕ → Bool
covers t prefix a =
    let n = t.nodes a in not n.glue && patcompwithmask n.prefix prefix n.prefix.bitlen

-- `junk` is what the stack holds before anything is stored in it.
unfoldable pub patissupernetof : Mem → ℕ → Trie → Netaddr → Option Bool
unfolding start_below walk
patissupernetof junk fuel t prefix = elim (start_below never fuel t prefix t.head) [
  | none ↦ none
  | some (a, found) ↦ walk judge_supernet fuel t prefix a (record { slots = junk; used = 0 })
]

unfoldable pub patisrelatedof : Mem → ℕ → Trie → Netaddr → Option Bool
unfolding start_below walk
patisrelatedof junk fuel t prefix = elim (start_below covers fuel t prefix t.head) [
  | none ↦ none
  | some (a, found) ↦
      if found
      then some true
      else walk judge_related fuel t prefix a (record { slots = junk; used = 0 })
]
