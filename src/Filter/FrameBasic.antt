-- ===== src/Filter/FrameBasic.antt =====
-- What the short instructions of the filter machine keep (src/ubgp/filterintrin.h).
use ubgpsuite.Base.{ℕ, zero, suc, ◌≤◌, ◌<◌, ◌≡◌, true, false, ltb, leb, ◌==◌, arith}
use ubgpsuite.NetAddr.{Netaddr, Family, unspec, inet, inet6}
use ubgpsuite.Trie.Insert.{patinsert}
use ubgpsuite.Trie.Remove.{patremove}
use ubgpsuite.Bgp.Fields.{endwithdrawn, endnlri, endaspath}
use ubgpsuite.Filter.State.{
  Vm, done, ◌>>=◌, Env, Cell, Settle, no_settle, value_cell, truth, settle_withdrawn, settle_nlri,
  settle_aspath, on_bgp, walked, vm_peek, vm_pop, addr_of, vm_clearstack, vm_abort,
  vm_surprising_bytes, set_top, value_of,
}
use ubgpsuite.Filter.Basic.{
  Test, constant, insert_in, insert_addr, remove_in, remove_addr, vm_exec_loadk, vm_exec_not,
  vm_exec_store, vm_exec_discard, vm_exec_settrie, vm_exec_settrie6, compare_top, contains_loop,
  contains, vm_exec_settle,
}
use ubgpsuite.Filter.Frame.{
  Same, Keeps, Keeps-if, Keeps-bind, then_Same, on_bgp-Same, walked-Same, vm_pop-Same, vm_peek-Same,
  push_with-Same,
}

module _ (v0 : Vm) where
  insert_in-Same :
      (env : Env) (i : ℕ) (a : Netaddr) (v : Vm) → Same v0 v → Keeps (insert_in env i a v) (Same v0)
  insert_in-Same env i a v s =
      then_Same v0 (walked (patinsert env.depth env.sys (v.tries i) a) v) _ (walked-Same v0 _ v s)
        λ r v s. Keeps-if (Same v0) (r.node == 0) _ _ (λ _. s) (λ _. s)

  pub insert_addr-Same :
      (env : Env) (a : Netaddr) (v : Vm) → Same v0 v → Keeps (insert_addr env a v) (Same v0)
  unfolding insert_addr
  insert_addr-Same env a v s =
      elim (a.family)
        as (λ (f : Family).
          Keeps {0} {A = Unit {0}}
            (elim f [
              | inet6 ↦ insert_in env v.curtrie6 a v
              | inet ↦ insert_in env v.curtrie a v
              | unspec ↦ vm_abort vm_surprising_bytes v
            ])
            (Same v0)) [
              | inet6 ↦ insert_in-Same env v.curtrie6 a v s
              | inet ↦ insert_in-Same env v.curtrie a v s
              | unspec ↦ s
            ]

  remove_in-Same :
      (env : Env) (i : ℕ) (a : Netaddr) (v : Vm) → Same v0 v → Keeps (remove_in env i a v) (Same v0)
  remove_in-Same env i a v s =
      then_Same v0 (walked (patremove env.depth env.sys (v.tries i) a) v) _ (walked-Same v0 _ v s)
        λ r v s. s

  remove_addr-Same :
      (env : Env) (a : Netaddr) (v : Vm) → Same v0 v → Keeps (remove_addr env a v) (Same v0)
  unfolding remove_addr
  remove_addr-Same env a v s =
      elim (a.family)
        as (λ (f : Family).
          Keeps {0} {A = Unit {0}}
            (elim f [
              | inet6 ↦ remove_in env v.curtrie6 a v
              | inet ↦ remove_in env v.curtrie a v
              | unspec ↦ vm_abort vm_surprising_bytes v
            ])
            (Same v0)) [
              | inet6 ↦ remove_in-Same env v.curtrie6 a v s
              | inet ↦ remove_in-Same env v.curtrie a v s
              | unspec ↦ s
            ]

  pub vm_exec_store-Same : (env : Env) (v : Vm) → Same v0 v → Keeps (vm_exec_store env v) (Same v0)
  unfolding vm_exec_store
  vm_exec_store-Same env v s =
      then_Same v0 (vm_pop v) _ (vm_pop-Same v0 v s)
        λ c v s. insert_addr-Same env (addr_of env.layout c) v s

  pub vm_exec_discard-Same :
      (env : Env) (v : Vm) → Same v0 v → Keeps (vm_exec_discard env v) (Same v0)
  unfolding vm_exec_discard
  vm_exec_discard-Same env v s =
      then_Same v0 (vm_pop v) _ (vm_pop-Same v0 v s)
        λ c v s. remove_addr-Same env (addr_of env.layout c) v s

  pub vm_exec_not-Same : (env : Env) (v : Vm) → Same v0 v → Keeps (vm_exec_not env v) (Same v0)
  unfolding vm_exec_not
  vm_exec_not-Same env v s =
      then_Same v0 (vm_peek v)
        (λ cell v. done tt (set_top (value_cell (truth (value_of env.layout cell == 0))) v))
        (vm_peek-Same v0 v s) (λ c v s. s)

  pub vm_exec_settrie-Same : (t : ℕ) (v : Vm) → Same v0 v → Keeps (vm_exec_settrie t v) (Same v0)
  unfolding vm_exec_settrie
  vm_exec_settrie-Same t v s =
      Keeps-if (Same v0) (leb v.ntries t) _ _ (λ _. s)
        λ _. Keeps-if (Same v0) ((v.tries t).maxbitlen == 32) _ _ (λ _. s) (λ _. s)

  pub vm_exec_settrie6-Same : (t : ℕ) (v : Vm) → Same v0 v → Keeps (vm_exec_settrie6 t v) (Same v0)
  unfolding vm_exec_settrie6
  vm_exec_settrie6-Same t v s =
      Keeps-if (Same v0) (leb v.ntries t) _ _ (λ _. s)
        λ _. Keeps-if (Same v0) ((v.tries t).maxbitlen == 128) _ _ (λ _. s) (λ _. s)

  -- A constant that is there can be read.
  constant-Same : (k : ℕ) (v : Vm) → Same v0 v → k < v.ksiz → Keeps (constant k v) (Same v0)
  unfolding constant
  constant-Same k v s h =
      let (b, p) = s in
      Keeps-if (Same v0) (ltb k v.maxk) _ _ (λ _. s) (λ e. absurd (ground (arith, e, b, h)))

  peek_known :
      (k : ℕ) (v : Vm)
      → Same v0 v
      → k < v.ksiz
      → Keeps (vm_peek v) (λ v'. Same v0 v' × (k < v'.ksiz))
  unfolding vm_peek
  peek_known k v s h =
      Keeps-if (λ v'. Same v0 v' × (k < v'.ksiz)) (v.si == 0) _ _ (λ _. (s, h)) (λ _. (s, h))

  pub compare_top-Same :
      (test : Test) (env : Env) (k : ℕ) (v : Vm)
      → Same v0 v
      → Keeps (compare_top test env k v) (Same v0)
  unfolding compare_top
  compare_top-Same test env k v s =
      Keeps-if (Same v0) (leb v.ksiz k) _ _ (λ _. s)
        λ known.
          Keeps-bind (λ v'. Same v0 v' × (k < v'.ksiz)) (Same v0) (vm_peek v) _
            (peek_known k v s (ground (arith, known))) (λ v' s. s.0)
            λ a v' (s', h).
              then_Same v0 (constant k v')
                (λ b v. done tt (set_top (value_cell (truth (test env a b))) v))
                (constant-Same k v' s' h) (λ b v s. s)

  pub vm_exec_settle-Same : (v : Vm) → Same v0 v → Keeps (vm_exec_settle v) (Same v0)
  unfolding vm_exec_settle
  vm_exec_settle-Same v s =
      let rest = λ (v : Vm). done tt (record v { settle_func = no_settle; access_mask = 0 }) in
      elim (v.settle_func)
        as (λ (e : Settle).
          Keeps {0} {A = Unit {0}}
            (elim e [
              | no_settle ↦ done tt v
              | settle_withdrawn ↦ on_bgp endwithdrawn v >>= λ _ v. rest v
              | settle_nlri ↦ on_bgp endnlri v >>= λ _ v. rest v
              | settle_aspath ↦ on_bgp endaspath v >>= λ _ v. rest v
            ])
            (Same v0)) [
              | no_settle ↦ s
              | settle_withdrawn ↦
                  then_Same v0 (on_bgp endwithdrawn v) _ (on_bgp-Same v0 endwithdrawn v s)
                    (λ _ v s. s)
              | settle_nlri ↦
                  then_Same v0 (on_bgp endnlri v) _ (on_bgp-Same v0 endnlri v s) (λ _ v s. s)
              | settle_aspath ↦
                  then_Same v0 (on_bgp endaspath v) _ (on_bgp-Same v0 endaspath v s) (λ _ v s. s)
            ]

  module _ (env : Env) (no_block : env.realloc 0 ≡ false) where
    pub vm_exec_loadk-Same : (k : ℕ) (v : Vm) → Same v0 v → Keeps (vm_exec_loadk env k v) (Same v0)
    unfolding vm_exec_loadk
    vm_exec_loadk-Same k v s =
        Keeps-if (Same v0) (leb v.ksiz k) _ _ (λ _. s)
          λ known.
            then_Same v0 (constant k v) _ (constant-Same k v s (ground (arith, known)))
              (λ c v s. push_with-Same v0 env no_block (λ _. c) v s)

    contains_loop-Same :
        (test : Test) (left : ℕ) (a : Cell) (v : Vm)
        → Same v0 v
        → left ≤ v.si
        → Keeps (contains_loop test env left a v) (Same v0)
    unfolding contains_loop
    contains_loop-Same test zero a v s h =
        push_with-Same v0 env no_block (value_cell (truth false)) v s
    contains_loop-Same test (suc left) a v s h =
        let ((b, z, w, m, ks, cs), p) = s in
        Keeps-if (Same v0) (test env a (v.sp left)) _ _
          (λ _.
            push_with-Same v0 env no_block (value_cell (truth true)) (vm_clearstack v)
              ((omega arith, z, w, m, ks, cs), p))
          λ _.
            contains_loop-Same test left a (record v { si = left })
              ((omega arith, z, w, m, ks, cs), p) (omega arith)

    pub contains-Same :
        (test : Test) (k : ℕ) (v : Vm) → Same v0 v → Keeps (contains test env k v) (Same v0)
    contains-Same test k v s =
        Keeps-if (Same v0) (leb v.ksiz k) _ _ (λ _. s)
          λ known.
            then_Same v0 (constant k v) _ (constant-Same k v s (ground (arith, known)))
              (λ a v s. contains_loop-Same test v.si a v s (omega arith))
