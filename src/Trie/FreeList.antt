-- ===== src/Trie/FreeList.antt =====
-- The list of free nodes of a PATRICIA trie (src/ubgp/patriciatrie.c).
use ubgpsuite.Base.{
  ℕ, zero, suc, ◌+◌, ◌-◌, ◌<◌, ◌≡◌, refl, sym, ap, subst, false, ◌==◌, if_true, if_false, arith,
  Option, none, some, List, [], ◌∷◌,
}
use ubgpsuite.Trie.Store.{
  Node, Trie, Platform, page_nodes, set_node, putfreenode, put_block, count_pages, patallocpage,
  getfreenode, take_free,
}
use ubgpsuite.Trie.Glue.{set_node_other}

abbrev pub NotIn : ℕ → List ℕ → Type 0
NotIn a [] = Unit
NotIn a (b ∷ bs) = ((b == a) ≡ false) × NotIn a bs

-- The links from an address lead over the nodes of a list, each once, to NULL.
abbrev pub IsFree : (ℕ → Node) → ℕ → List ℕ → Type 0
IsFree nodes a [] = a ≡ 0
IsFree nodes a (b ∷ bs) = (a ≡ b) × (0 < b) × NotIn b bs × IsFree nodes (nodes b).next bs

-- The first `n` nodes of a page in front of a list, the last of them first.
abbrev pub block : ℕ → ℕ → List ℕ → List ℕ
block base zero l = l
block base (suc n) l = (base + n) ∷ block base n l

IsFree-other :
    (t : Trie) (a b : ℕ) (l : List ℕ) (f : Node → Node)
    → NotIn b l
    → IsFree t.nodes a l
    → IsFree (set_node t b f).nodes a l
IsFree-other t a b [] f away h = h
IsFree-other t a b (c ∷ l) f (other, away) (same, pos, once, h) = (
  same,
  pos,
  once,
  subst (λ n. IsFree (set_node t b f).nodes n l)
      (sym (ap (λ n. n.next) (set_node_other t b c f other)))
      (IsFree-other t (t.nodes c).next b l f away h),
)

putfreenode-IsFree :
    (sys : Platform) (t : Trie) (a : ℕ) (l : List ℕ)
    → 0 < a
    → NotIn a l
    → IsFree t.nodes t.freenodes l
    → IsFree (putfreenode sys t a).nodes (putfreenode sys t a).freenodes (a ∷ l)
unfolding putfreenode
putfreenode-IsFree sys t a l pos away h =
    let f =
      λ (n : Node). record n { next = t.freenodes; prefix = sys.overwrite t.freenodes n.prefix } in
    (
      refl,
      pos,
      away,
      subst (λ n. IsFree (set_node t a f).nodes n l)
          (sym (ap (λ n. n.next) (if_true (a == a) (f (t.nodes a)) (t.nodes a) (ground arith))))
          (IsFree-other t t.freenodes a l f away h),
    )

NotIn-block : (base n : ℕ) → NotIn (base + n) (block base n [])
NotIn-block base n = go n (omega arith)
  where
    go : (k : ℕ) → k < suc n → NotIn (base + n) (block base k [])
    go zero h = tt
    go (suc k) h = (ground (arith, h), go k (omega (arith, h)))

put_block-IsFree :
    (sys : Platform) (t : Trie) (base n : ℕ)
    → 0 < base
    → t.freenodes ≡ 0
    → IsFree (put_block sys base n t).nodes (put_block sys base n t).freenodes (block base n [])
unfolding put_block
put_block-IsFree sys t base zero pos empty = empty
put_block-IsFree sys t base (suc n) pos empty =
    putfreenode-IsFree sys (put_block sys base n t) (base + n) (block base n [])
      (omega (arith, pos)) (NotIn-block base n) (put_block-IsFree sys t base n pos empty)

-- What `getfreenode` answers where it allocates a page: the last node of it, and the others are left.
abbrev pub GotNew : Trie → Option ℕ → Trie × ℕ → Type 0
GotNew t none (t', n) = (n ≡ 0) × (t'.pages ≡ t.pages)
GotNew t (some base) (t', n) =
    (n ≡ base + (page_nodes - 1))
    × (0 < n)
    × IsFree t'.nodes t'.freenodes (block base (page_nodes - 1) [])
    × (t'.pages ≡ base ∷ t.pages)

-- What it answers for a list of free nodes: its first node, and the rest is left.
abbrev pub Got : Platform → Trie → List ℕ → Trie × ℕ → Type 0
Got sys t (b ∷ l) (t', n) =
    (n ≡ b) × (0 < n) × NotIn b l × IsFree t'.nodes t'.freenodes l × (t'.pages ≡ t.pages)
Got sys t [] r = GotNew t (sys.malloc (count_pages t.pages)) r

take_free_first :
    (t : Trie) (b : ℕ) (l : List ℕ)
    → IsFree t.nodes t.freenodes (b ∷ l)
    → ((take_free t).1 ≡ b)
      × (0 < (take_free t).1)
      × IsFree (take_free t).0.nodes (take_free t).0.freenodes l
      × ((take_free t).0.pages ≡ t.pages)
unfolding take_free
take_free_first t b l (same, pos, once, h) =
    let run = if_false (t.freenodes == 0) _ _ (ground (arith, same, pos)) in
    subst
      (λ (r : Trie × ℕ).
        (r.1 ≡ b) × (0 < r.1) × IsFree r.0.nodes r.0.freenodes l × (r.0.pages ≡ t.pages))
      (sym run)
      (
        same,
        omega (arith, same, pos),
        subst (λ c. IsFree t.nodes (t.nodes c).next l) (sym same) h,
        refl,
      )

take_free_none : (t : Trie) → t.freenodes ≡ 0 → take_free t ≡ (t, 0)
unfolding take_free
take_free_none t empty = if_true (t.freenodes == 0) _ _ (ap (λ n. n == 0) empty)

-- The page that is allocated when there is no free node.
abbrev with_page : Platform → Trie → Option ℕ → Trie
with_page sys t o = elim o [
  | none ↦ t
  | some base ↦ let t' = put_block sys base page_nodes t in record t' { pages = base ∷ t.pages }
]

with_page-GotNew :
    (sys : Platform) (t : Trie) (o : Option ℕ)
    → ((base : ℕ) → o ≡ some base → 0 < base)
    → t.freenodes ≡ 0
    → GotNew t o (take_free (with_page sys t o))
with_page-GotNew sys t none real empty =
    subst (GotNew t none) (sym (take_free_none t empty)) (refl, refl)
with_page-GotNew sys t (some base) real empty =
    take_free_first (with_page sys t (some base)) (base + (page_nodes - 1))
      (block base (page_nodes - 1) [])
      (put_block-IsFree sys t base page_nodes (real base refl) empty)

-- Let the free nodes of a trie be linked in a list in which each stands once, and let `malloc` never
-- answer NULL as a block. `getfreenode` takes the first free node off the list, on which it is not
-- again, and the rest is a list of the same kind. With none left, it takes the last node of a new page
-- and leaves the other 127, or answers NULL where `malloc` has no page.
pub getfreenode_lem :
    (sys : Platform) (t : Trie) (l : List ℕ)
    → ((k base : ℕ) → sys.malloc k ≡ some base → 0 < base)
    → IsFree t.nodes t.freenodes l
    → Got sys t l (getfreenode sys t)
unfolding getfreenode patallocpage
getfreenode_lem sys t (b ∷ l) real (same, pos, once, h) =
    let run =
      ap take_free
        (if_false (t.freenodes == 0) (patallocpage sys t) t (ground (arith, same, pos))) in
    let (first, some_node, rest, pages) = take_free_first t b l (same, pos, once, h) in
    subst (Got sys t (b ∷ l)) (sym run) (first, some_node, once, rest, pages)
getfreenode_lem sys t [] real empty =
    let run =
      ap take_free (if_true (t.freenodes == 0) (patallocpage sys t) t (ap (λ n. n == 0) empty)) in
    subst (Got sys t []) (sym run)
      (with_page-GotNew sys t (sys.malloc (count_pages t.pages)) (real (count_pages t.pages)) empty)
