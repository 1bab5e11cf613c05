-- ===== src/Trie/Store.antt =====
-- The nodes of a PATRICIA trie, the pages they stand in and the list of free nodes
-- (src/ubgp/patriciatrie.c). A pointer to a node is a number, and NULL is 0.
use ubgpsuite.Base.{
  ℕ, zero, suc, ◌+◌, ◌/◌, ◌%◌, ◌^◌, Bool, true, false, not, ◌==◌, if◌then◌else◌, bit_and, Option,
  none, some, List, [], ◌∷◌,
}
use ubgpsuite.NetAddr.{Netaddr, Family, unspec, inet6, same_family}

-- The lowest bit of `parent` is the field `glue`.
pub record Node : Type 0 where
  pub prefix : Netaddr
  pub payload : ℕ
  pub parent : ℕ
  pub glue : Bool
  pub left : ℕ
  pub right : ℕ
  pub next : ℕ

pub record Trie : Type 0 where
  pub head : ℕ
  pub maxbitlen : ℕ
  pub nprefs : ℕ
  pub pages : List ℕ
  pub freenodes : ℕ
  pub nodes : ℕ → Node

-- What is not part of the program: where `malloc` puts the next page, if it has one, for the number
-- of pages so far, and what a prefix is after a pointer is stored over its first bytes.
pub record Platform : Type 0 where
  pub malloc : ℕ → Option ℕ
  pub overwrite : ℕ → Netaddr → Netaddr

abbrev pub page_nodes : ℕ
page_nodes = 128

abbrev pub child : Node → Bool → ℕ
child n right = if right then n.right else n.left

abbrev pub set_child : Node → Bool → ℕ → Node
set_child n right a = if right then record n { right = a } else record n { left = a }

-- A change of the node at an address.
abbrev pub set_node : Trie → ℕ → (Node → Node) → Trie
set_node t a f = record t { nodes = λ j. if j == a then f (t.nodes a) else t.nodes j }

abbrev pub setpnodeparent : Trie → ℕ → ℕ → Trie
setpnodeparent t a parent = set_node t a (λ n. record n { parent = parent })

abbrev pub setpnodeglue : Trie → ℕ → Trie
setpnodeglue t a = set_node t a (λ n. record n { glue = true })

abbrev pub empty_prefix : Netaddr
empty_prefix = record { family = unspec; bitlen = 0; bytes = λ j. 0 }

-- `pnodeinit`, of which the prefix may be NULL.
unfoldable pub pnodeinit : Trie → ℕ → Option Netaddr → Trie
pnodeinit t a prefix = set_node t a λ _. record {
  prefix = elim prefix [ none ↦ empty_prefix | some p ↦ p ];
  payload = 0;
  parent = 0;
  glue = false;
  left = 0;
  right = 0;
  next = 0;
}

-- The link of the list of free nodes stands where the prefix of a node begins.
unfoldable pub putfreenode : Platform → Trie → ℕ → Trie
putfreenode sys t a =
    let save = t.freenodes in
    let t' = set_node t a (λ n. record n { next = save; prefix = sys.overwrite save n.prefix }) in
    record t' { freenodes = a }

-- The first `n` nodes of a page, in turn.
unfoldable pub put_block : Platform → ℕ → ℕ → Trie → Trie
unfolding putfreenode
put_block sys base zero t = t
put_block sys base (suc n) t = putfreenode sys (put_block sys base n t) (base + n)

abbrev pub count_pages : List ℕ → ℕ
count_pages [] = 0
count_pages (p ∷ ps) = suc (count_pages ps)

unfoldable pub patallocpage : Platform → Trie → Trie
unfolding put_block
patallocpage sys t = elim (sys.malloc (count_pages t.pages)) [
  | none ↦ t
  | some base ↦ let t' = put_block sys base page_nodes t in record t' { pages = base ∷ t.pages }
]

-- The first free node, which leaves the list, or NULL.
unfoldable pub take_free : Trie → Trie × ℕ
take_free t =
    let n = t.freenodes in if n == 0 then (t, 0) else (record t { freenodes = (t.nodes n).next }, n)

unfoldable pub getfreenode : Platform → Trie → Trie × ℕ
getfreenode sys t = take_free (if t.freenodes == 0 then patallocpage sys t else t)

-- `patinit` on a structure that holds anything.
unfoldable pub patinit : Trie → Family → Trie
patinit t family = record t {
  head = 0;
  maxbitlen = if same_family family inet6 then 128 else 32;
  nprefs = 0;
  pages = [];
  freenodes = 0;
}

unfoldable put_pages : Platform → List ℕ → Trie → Trie
unfolding put_block
put_pages sys [] t = t
put_pages sys (p ∷ ps) t = put_pages sys ps (put_block sys p page_nodes t)

unfoldable pub patclear : Platform → Trie → Trie
unfolding put_pages
patclear sys t = put_pages sys t.pages (record t { head = 0; nprefs = 0; freenodes = 0 })

-- Whether bit `i` of an address is set.
abbrev pub bit_set : Netaddr → ℕ → Bool
bit_set p i = not (bit_and (p.bytes (i / 8)) (128 / 2 ^ (i % 8)) == 0)
