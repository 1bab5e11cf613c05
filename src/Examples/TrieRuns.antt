-- ===== src/Examples/TrieRuns.antt =====
-- A PATRICIA trie with 10.0.0.0/8 at node 1 and 10.1.0.0/16 below it at node 2, and free nodes 5, 6;
-- and the trie of the repository's own tests of `patissupernetof`.
use ubgpsuite.Base.{
  ℕ, ◌+◌, ◌*◌, ◌<◌, ap, Option, ◌≡◌, refl, true, false, ◌&&◌, ◌==◌, if◌then◌else◌, IsBytes, Mem,
  arith, some, none, [], ◌∷◌,
}
use ubgpsuite.NetAddr.{Netaddr, inet, same_bytes, patcompwithmask}
use ubgpsuite.Trie.Store.{Node, Trie, Platform, getfreenode}
use ubgpsuite.Trie.Search.{patsearchexact, patsearchbest}
use ubgpsuite.Trie.Walk.{next_node, patissupernetof, patisrelatedof}
use ubgpsuite.Trie.Insert.{insert_at}
use ubgpsuite.Trie.Shape.{Tree, nil, at, IsShape, IsRouted}
use ubgpsuite.Trie.Exact.{Sought, Answer, patsearchexact_lem}
use ubgpsuite.Trie.Best.{IsNested, Best}
use ubgpsuite.Trie.Longest.{patsearchbest_lem}
use ubgpsuite.Trie.Supernet.{insert_at_supernet}
use ubgpsuite.Trie.FreeList.{Got, getfreenode_lem}

abbrev ten_one : Mem
ten_one j = if j == 0 then 10 else if j == 1 then 1 else 0

abbrev nodes : ℕ → Node
nodes c = record {
  prefix = record { family = inet; bitlen = if c == 1 then 8 else 16; bytes = ten_one };
  payload = 0;
  parent = if c == 2 then 1 else 0;
  glue = false;
  left = if c == 1 then 2 else 0;
  right = 0;
  next = if c == 5 then 6 else 0;
}

abbrev trie : Trie
trie = record { head = 1; maxbitlen = 32; nprefs = 2; pages = []; freenodes = 5; nodes = nodes }

abbrev tree : Tree
tree = at 1 (at 2 nil nil) nil

-- 10.1.0.0/16 and 10.1.0.0/24.
abbrev stored : Netaddr
stored = record { family = inet; bitlen = 16; bytes = ten_one }

abbrev longer : Netaddr
longer = record { family = inet; bitlen = 24; bytes = ten_one }

ten_one-IsBytes : IsBytes ten_one
ten_one-IsBytes j = ground arith

sought : Sought trie stored
sought = record { node_bytes = λ c. ten_one-IsBytes; bytes = ten_one-IsBytes; short = omega arith }

longer-Sought : Sought trie longer
longer-Sought = record {
  node_bytes = λ c. ten_one-IsBytes;
  bytes = ten_one-IsBytes;
  short = omega arith;
}

tree-IsShape : IsShape nodes 0 1 tree
tree-IsShape = (refl, omega arith, omega arith, (refl, omega arith, omega arith, refl, refl), refl)

tree-IsRouted : IsRouted nodes tree
tree-IsRouted = (
  (λ c h real. refl),
  (λ c h real. absurd h),
  ((λ c h real. absurd h), (λ c h real. absurd h), tt, tt),
  tt,
)

tree-IsNested : IsNested trie tree
tree-IsNested = (
  (λ c h real real' i low. refl),
  (λ c h real real' i low. absurd h),
  ((λ c h real real' i low. absurd h), (λ c h real real' i low. absurd h), tt, tt),
  tt,
)

patsearchexact_example : Answer trie tree stored (patsearchexact 17 trie stored)
patsearchexact_example =
    patsearchexact_lem 17 trie stored tree sought tree-IsShape tree-IsRouted (omega arith)

patsearchbest_example : Best trie longer tree 0 (patsearchbest 25 trie longer)
patsearchbest_example =
    patsearchbest_lem 25 trie longer tree longer-Sought tree-IsShape tree-IsRouted tree-IsNested
      (omega arith)

-- Memory for pages from 100 on.
abbrev sys : Platform
sys = record { malloc = λ k. some (100 + k * 128); overwrite = λ a p. p }

malloc_pos : (k base : ℕ) → sys.malloc k ≡ some base → 0 < base
malloc_pos k base h =
    let at_page : 100 + k * 128 ≡ base =
      ap (λ (o : Option ℕ). elim o [ none ↦ 0 | some b ↦ b ]) h in
    omega (arith, at_page)

getfreenode_example : Got sys trie (5 ∷ 6 ∷ []) (getfreenode sys trie)
getfreenode_example =
    getfreenode_lem sys trie (5 ∷ 6 ∷ []) malloc_pos
      (refl, omega arith, (refl, tt), (refl, omega arith, tt, refl))

-- 10.0.0.0/8, which goes above a node with 10.1.0.0/16 and no parent.
abbrev shorter : Netaddr
shorter = record { family = inet; bitlen = 8; bytes = ten_one }

insert_at_example :
    ((insert_at sys trie shorter 8 3).inserted ≡ true)
    × (patsearchexact 9 (insert_at sys trie shorter 8 3).trie shorter ≡ some 0)
insert_at_example =
    insert_at_supernet 8 sys trie shorter 3 refl refl refl refl refl refl (omega arith)

-- The trie of 8.0.0.0/8 and 9.2.0.0/16, with the glue node 8.0.0.0/7 at 10 above them.
abbrev eight_nine : Trie
eight_nine = record trie {
  head = 10;
  nodes = λ c. record {
    prefix = record {
      family = inet;
      bitlen = if c == 10 then 7 else if c == 11 then 8 else 16;
      bytes =
          λ j. if j == 0 then (if c == 12 then 9 else 8) else if j == 1 && c == 12 then 2 else 0;
    };
    payload = 0;
    parent = if c == 10 then 0 else 10;
    glue = c == 10;
    left = if c == 10 then 11 else 0;
    right = if c == 10 then 12 else 0;
    next = 0;
  };
}

abbrev ipv4_of : ℕ → ℕ → ℕ → Netaddr
ipv4_of a b n = record {
  family = inet;
  bitlen = n;
  bytes = λ j. if j == 0 then a else if j == 1 then b else 0;
}

nine_has_subnet : patissupernetof (λ j. 0) 33 eight_nine (ipv4_of 9 0 8) ≡ some true
unfolding patissupernetof next_node patcompwithmask same_bytes
nine_has_subnet = refl

eight_has_none : patissupernetof (λ j. 0) 33 eight_nine (ipv4_of 8 2 32) ≡ some false
unfolding patissupernetof next_node patcompwithmask same_bytes
eight_has_none = refl

ten_has_none : patissupernetof (λ j. 0) 33 eight_nine (ipv4_of 10 0 7) ≡ some false
unfolding patissupernetof next_node patcompwithmask same_bytes
ten_has_none = refl

nine_is_related : patisrelatedof (λ j. 0) 33 eight_nine (ipv4_of 9 2 24) ≡ some true
unfolding patisrelatedof patcompwithmask same_bytes
nine_is_related = refl

ten_is_unrelated : patisrelatedof (λ j. 0) 33 eight_nine (ipv4_of 10 2 24) ≡ some false
unfolding patisrelatedof patcompwithmask same_bytes
ten_is_unrelated = refl
