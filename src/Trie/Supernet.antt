-- ===== src/Trie/Supernet.antt =====
-- Inserting a prefix above the first node of a PATRICIA trie (src/ubgp/patriciatrie.c).
use ubgpsuite.Base.{
  ℕ, suc, ◌+◌, ◌<◌, ◌%◌, ◌^◌, ◌≡◌, refl, ◌∙◌, ap, true, false, ◌&&◌, ◌==◌, if_false, arith, Option,
  none, some,
}
use ubgpsuite.NetAddr.{Netaddr}
use ubgpsuite.Trie.Store.{Trie, Platform, pnodeinit}
use ubgpsuite.Trie.Search.{patsearchexact}
use ubgpsuite.Trie.Insert.{init_glue, link_glue, insert_glue, insert_new, insert_at}
use ubgpsuite.Trie.Glue.{getfreenode_run, glue_hides, IsGlue, init_glue-IsGlue, link_glue_head}

-- The trie without its first free node.
abbrev taken : Trie → Trie
taken t = record t { freenodes = (t.nodes t.freenodes).next }

insert_glue_run :
    (sys : Platform) (t : Trie) (p : Netaddr) (d n x : ℕ)
    → (t.freenodes == 0) ≡ false
    → insert_glue sys t p d n x ≡ record {
      trie =
          link_glue
            (init_glue (pnodeinit (taken t) t.freenodes none) p d n x t.freenodes)
            n
            x
            t.freenodes;
      node = x;
      inserted = true;
    }
unfolding insert_glue
insert_glue_run sys t p d n x real =
    rw (getfreenode_run sys t real) (if_false (t.freenodes == 0) _ _ real)

-- The trie with its first free node set up for a prefix.
abbrev made_for : Trie → Netaddr → Trie
made_for t p = record (pnodeinit (taken t) t.freenodes (some p)) {
  nprefs = (t.nprefs + 1) % 2 ^ 32;
}

insert_new_run :
    (sys : Platform) (t : Trie) (p : Netaddr) (d n : ℕ)
    → (t.freenodes == 0) ≡ false
    → (((made_for t p).nodes n).prefix.bitlen == d) ≡ false
    → insert_new sys t p d n ≡ insert_glue sys (made_for t p) p d n t.freenodes
unfolding insert_new
insert_new_run sys t p d n real other = rw (getfreenode_run sys t real) (
    if_false (t.freenodes == 0) _ _ real
    ∙ if_false (((made_for t p).nodes n).prefix.bitlen == d) _ _ other)

pnodeinit_other :
    (t : Trie) (a j : ℕ) (prefix : Option Netaddr)
    → (j == a) ≡ false
    → (pnodeinit t a prefix).nodes j ≡ t.nodes j
unfolding pnodeinit
pnodeinit_other t a j prefix e = if_false (j == a) _ (t.nodes j) e

made_for_free : (t : Trie) (p : Netaddr) → (made_for t p).freenodes ≡ (t.nodes t.freenodes).next
unfolding pnodeinit
made_for_free t p = refl

init_glue_other :
    (t : Trie) (p : Netaddr) (d n x g j : ℕ)
    → (j == g) ≡ false
    → (init_glue t p d n x g).nodes j ≡ t.nodes j
unfolding init_glue
init_glue_other t p d n x g j e = if_false (j == g) _ (t.nodes j) e

-- A trie whose head is a glue node as long as the prefix, linked in above `n`.
linked_hides :
    (fuel : ℕ) (t : Trie) (p : Netaddr) (n x g : ℕ)
    → (g == 0) ≡ false
    → (g == n) ≡ false
    → (g == x) ≡ false
    → (n == x) ≡ false
    → (t.nodes n).parent ≡ 0
    → IsGlue (t.nodes g) p.bitlen
    → patsearchexact (suc fuel) (link_glue t n x g) p ≡ some 0
linked_hides fuel t p n x g g0 gn gx nx first (len, glue) =
    let (head, kept) = link_glue_head t n x g gn gx nx first in
    let t' = link_glue t n x g in
    let node : t'.nodes t'.head ≡ t.nodes g = ap (λ a. t'.nodes a) head ∙ kept in
    glue_hides fuel t' p (ap (λ a. a == 0) head ∙ g0) (ap (λ n. n.prefix.bitlen) node ∙ len)
      (ap (λ n. n.glue) node ∙ glue)

insert_glue_hides :
    (fuel : ℕ) (sys : Platform) (t : Trie) (p : Netaddr) (n x : ℕ)
    → (t.freenodes == 0) ≡ false
    → (t.freenodes == n) ≡ false
    → (t.freenodes == x) ≡ false
    → (n == t.freenodes) ≡ false
    → (n == x) ≡ false
    → (t.nodes n).parent ≡ 0
    → ((insert_glue sys t p p.bitlen n x).inserted ≡ true)
      × (patsearchexact (suc fuel) (insert_glue sys t p p.bitlen n x).trie p ≡ some 0)
insert_glue_hides fuel sys t p n x g0 gn gx ng nx first =
    let g = t.freenodes in
    let fresh = pnodeinit (taken t) g none in
    let t' = init_glue fresh p p.bitlen n x g in
    let same =
      init_glue_other fresh p p.bitlen n x g n ng ∙ pnodeinit_other (taken t) g n none ng in
    let run = insert_glue_run sys t p p.bitlen n x g0 in
    (
      ap (λ r. r.inserted) run,
      ap (λ r. patsearchexact (suc fuel) r.trie p) run
          ∙ linked_hides fuel t' p n x g g0 gn gx nx (ap (λ n. n.parent) same ∙ first)
              (init_glue-IsGlue fresh p p.bitlen n x g),
    )

-- Let the first node `n` of a trie have no parent, and be longer than a prefix with which it has all
-- of the prefix's bits in common, and let the first two free nodes be two nodes other than `n`. What
-- `patinsert` does after its loops then reports that the prefix was inserted, but `patsearchexact`
-- answers NULL for it.
pub insert_at_supernet :
    (fuel : ℕ) (sys : Platform) (t : Trie) (p : Netaddr) (n : ℕ)
    → (t.freenodes == 0) ≡ false
    → ((t.nodes t.freenodes).next == 0) ≡ false
    → (t.freenodes == n) ≡ false
    → ((t.nodes t.freenodes).next == n) ≡ false
    → ((t.nodes t.freenodes).next == t.freenodes) ≡ false
    → (t.nodes n).parent ≡ 0
    → p.bitlen < (t.nodes n).prefix.bitlen
    → ((insert_at sys t p p.bitlen n).inserted ≡ true)
      × (patsearchexact (suc fuel) (insert_at sys t p p.bitlen n).trie p ≡ some 0)
unfolding insert_at
insert_at_supernet fuel sys t p n x0 g0 xn gn gx first longer =
    let x = t.freenodes in
    let t' = made_for t p in
    let free = made_for_free t p in
    let nx : (n == x) ≡ false = ground (arith, xn) in
    let same : t'.nodes n ≡ t.nodes n = pnodeinit_other (taken t) x n (some p) nx in
    let shorter_other : ((t.nodes n).prefix.bitlen == p.bitlen) ≡ false = ground (arith, longer) in
    let other : ((t'.nodes n).prefix.bitlen == p.bitlen) ≡ false =
      ap (λ n. n.prefix.bitlen == p.bitlen) same ∙ shorter_other in
    let run =
      if_false (p.bitlen == p.bitlen && (t.nodes n).prefix.bitlen == p.bitlen) _ _
        (ground (arith, longer))
      ∙ insert_new_run sys t p p.bitlen n x0 other in
    let hidden =
      insert_glue_hides fuel sys t' p n x (ap (λ a. a == 0) free ∙ g0) (ap (λ a. a == n) free ∙ gn)
        (ap (λ a. a == x) free ∙ gx) (ap (λ a. n == a) free ∙ ground (arith, gn)) nx
        (ap (λ n. n.parent) same ∙ first) in
    (
      ap (λ r. r.inserted) run ∙ hidden.0,
      ap (λ r. patsearchexact (suc fuel) r.trie p) run ∙ hidden.1,
    )
