-- ===== src/Trie/Glue.antt =====
-- The glue node that `patinsert` puts above the first node of a PATRICIA trie, and what
-- `patsearchexact` answers at one (src/ubgp/patriciatrie.c).
use ubgpsuite.Base.{
  ℕ, suc, ◌≡◌, refl, ◌∙◌, ap, Bool, true, false, ◌||◌, not, ltb, ◌==◌, if_true, if_false, arith,
  Option, none, some,
}
use ubgpsuite.NetAddr.{Netaddr}
use ubgpsuite.Trie.Store.{
  Node, Trie, Platform, set_child, set_node, setpnodeparent, getfreenode, take_free, patallocpage,
}
use ubgpsuite.Trie.Search.{bit_below, descend, exact_at, patsearchexact}
use ubgpsuite.Trie.Insert.{replace_below, init_glue, link_glue}

-- With a free node, no page is allocated.
pub getfreenode_run :
    (sys : Platform) (t : Trie)
    → (t.freenodes == 0) ≡ false
    → getfreenode sys t ≡ (record t { freenodes = (t.nodes t.freenodes).next }, t.freenodes)
unfolding getfreenode take_free
getfreenode_run sys t some_free =
    ap take_free (if_false (t.freenodes == 0) (patallocpage sys t) t some_free)
    ∙ if_false (t.freenodes == 0) _ _ some_free

-- A glue node of the same length hides a prefix from the search.
pub glue_hides :
    (fuel : ℕ) (t : Trie) (p : Netaddr)
    → (t.head == 0) ≡ false
    → (t.nodes t.head).prefix.bitlen ≡ p.bitlen
    → (t.nodes t.head).glue ≡ true
    → patsearchexact (suc fuel) t p ≡ some 0
unfolding patsearchexact descend
glue_hides fuel t p real len glue =
    let no_shorter : ltb (t.nodes t.head).prefix.bitlen p.bitlen ≡ false = ground (arith, len) in
    let answer : Option ℕ → Option ℕ =
      λ o. elim o [ none ↦ none | some a ↦ some (exact_at t p a) ] in
    let hidden : (ltb p.bitlen (t.nodes t.head).prefix.bitlen || (t.nodes t.head).glue) ≡ true =
      ground (arith, len, glue) in
    ap answer (
      if_false (t.head == 0) _ _ real
      ∙ if_false (ltb (t.nodes t.head).prefix.bitlen p.bitlen) _ _ no_shorter)
    ∙ ap some (
        if_false (t.head == 0) _ _ real
        ∙ if_true (ltb p.bitlen (t.nodes t.head).prefix.bitlen || (t.nodes t.head).glue) _ _ hidden)

set_child_prefix : (n : Node) (right : Bool) (a : ℕ) → (set_child n right a).prefix ≡ n.prefix
set_child_prefix n true a = refl
set_child_prefix n false a = refl

set_child_glue : (n : Node) (right : Bool) (a : ℕ) → (set_child n right a).glue ≡ n.glue
set_child_glue n true a = refl
set_child_glue n false a = refl

set_node_same : (t : Trie) (a : ℕ) (f : Node → Node) → (set_node t a f).nodes a ≡ f (t.nodes a)
set_node_same t a f = if_true (a == a) (f (t.nodes a)) (t.nodes a) (ground arith)

pub set_node_other :
    (t : Trie) (a j : ℕ) (f : Node → Node) → (j == a) ≡ false → (set_node t a f).nodes j ≡ t.nodes j
set_node_other t a j f e = if_false (j == a) (f (t.nodes a)) (t.nodes j) e

-- The glue node after it is set up.
abbrev pub IsGlue : Node → ℕ → Type 0
IsGlue n d = (n.prefix.bitlen ≡ d) × (n.glue ≡ true)

pub init_glue-IsGlue :
    (t : Trie) (p : Netaddr) (d n x g : ℕ) → IsGlue ((init_glue t p d n x g).nodes g) d
unfolding init_glue
init_glue-IsGlue t p d n x g =
    let made : Node = record (t.nodes g) {
      prefix = record ((t.nodes g).prefix) { bitlen = d };
      glue = true;
      parent = (t.nodes n).parent;
    } in
    let bit = bit_below t p d in
    let same = set_node_same t g (λ q.
      set_child
        (set_child
          (record q {
            prefix = record (q.prefix) { bitlen = d };
            glue = true;
            parent = (t.nodes n).parent;
          })
          bit x)
        (not bit) n) in
    (
      ap (λ q. q.prefix.bitlen) same
          ∙ ap (λ q. q.bitlen)
              (set_child_prefix (set_child made bit x) (not bit) n ∙ set_child_prefix made bit x),
      ap (λ q. q.glue) same
          ∙ set_child_glue (set_child made bit x) (not bit) n
          ∙ set_child_glue made bit x,
    )

-- The glue node takes the place of the first node of the trie.
pub link_glue_head :
    (t : Trie) (n x g : ℕ)
    → (g == n) ≡ false
    → (g == x) ≡ false
    → (n == x) ≡ false
    → (t.nodes n).parent ≡ 0
    → ((link_glue t n x g).head ≡ g) × ((link_glue t n x g).nodes g ≡ t.nodes g)
unfolding link_glue
link_glue_head t n x g gn gx nx first =
    let t' = setpnodeparent t x g in
    let parent : (t'.nodes n).parent ≡ 0 =
      ap (λ q. q.parent) (set_node_other t x n (λ q. record q { parent = g }) nx) ∙ first in
    let moved : replace_below t' (t'.nodes n).parent n g ≡ record t' { head = g } =
      if_true ((t'.nodes n).parent == 0) _ _ (ap (λ a. a == 0) parent) in
    (
      ap (λ t. t.head) moved,
      set_node_other (replace_below t' (t'.nodes n).parent n g) n g (λ q. record q { parent = g })
            gn
          ∙ ap (λ t. t.nodes g) moved
          ∙ set_node_other t x g (λ q. record q { parent = g }) gx,
    )
