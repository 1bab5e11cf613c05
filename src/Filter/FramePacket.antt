-- ===== src/Filter/FramePacket.antt =====
-- What the instructions of the filter machine that read the packet keep (src/ubgp/filterintrin.c,
-- src/ubgp/filterintrin.h).
use ubgpsuite.Base.{ℕ, zero, suc, ◌≡◌, Bool, true, false, ◌==◌, Option, none, some}
use ubgpsuite.NetAddr.{Netaddr, Netaddrap, Family, unspec, inet, inet6}
use ubgpsuite.Attr.Header.{attr_code}
use ubgpsuite.Bgp.State.{Msg, Outcome, Err, is_err}
use ubgpsuite.Bgp.Fields.{endbgpattribs}
use ubgpsuite.Bgp.Read.{nextbgpattrib}
use ubgpsuite.Bgp.Path.{startaspath, startas4path, startrealaspath}
use ubgpsuite.Bgp.Write.{
  startbgpattribs, startallwithdrawn, startwithdrawn, startallnlri, startnlri,
}
use ubgpsuite.Filter.State.{
  Vm, Exec, Env, Settle, settle_aspath, settle_nlri, settle_withdrawn, vm_surprising_bytes,
  value_cell, truth, on_bgp, walked, vm_abort, vm_surprising_bytes,
}
use ubgpsuite.Filter.Basic.{vm_exec_settle}
use ubgpsuite.Filter.Access.{
  is_update, find_attr, notable, look_up, vm_exec_hasattr, start_with, start_addrs, start_path,
  prepare, TrieTest, test_addr, next_addr, scan_addrs, match_addrs, wants_settle, settle_first,
  without_settle, vm_prepare_addr_access,
}
use ubgpsuite.Filter.Packet.{each_addr, through}
use ubgpsuite.Filter.Frame.{
  Same, Keeps, Keeps-if, Keeps-option, then_Same, on_bgp-Same, walked-Same, push_with-Same,
}
use ubgpsuite.Filter.FrameBasic.{vm_exec_settle-Same}

module _ (v0 : Vm) where
  find_attr-Same : (fuel code : ℕ) (v : Vm) → Same v0 v → Keeps (find_attr fuel code v) (Same v0)
  unfolding find_attr
  find_attr-Same zero code v s = tt
  find_attr-Same (suc fuel) code v s =
      then_Same v0 (on_bgp nextbgpattrib v) _ (on_bgp-Same v0 nextbgpattrib v s) λ r v s.
        Keeps-option (Same v0) r _ _ s (λ a.
          Keeps-if (Same v0) (attr_code v.bgp.mem a == code) _ _ (λ _. s)
            (λ _. find_attr-Same fuel code v s))

  look_up-Same : (env : Env) (code : ℕ) (v : Vm) → Same v0 v → Keeps (look_up env code v) (Same v0)
  unfolding look_up
  look_up-Same env code v s =
      Keeps-option (Same v0) (notable code) _ _
        (then_Same v0 (on_bgp (startbgpattribs env.heap) v) _
          (on_bgp-Same v0 (startbgpattribs env.heap) v s)
          λ _ v s.
            then_Same v0 (find_attr env.rounds code v) _ (find_attr-Same env.rounds code v s)
              λ r v s.
                then_Same v0 (on_bgp endbgpattribs v) _ (on_bgp-Same v0 endbgpattribs v s)
                  (λ _ v s. s))
        (λ get. on_bgp-Same v0 (get env.heap) v s)

  start_with-Same :
      (f : Msg → Outcome Err) (e : Settle) (mode : ℕ) (v : Vm)
      → Same v0 v
      → Keeps (start_with f e mode v) (Same v0)
  start_with-Same f e mode v s = then_Same v0 (on_bgp f v) _ (on_bgp-Same v0 f v s) (λ _ v s. s)

  start_addrs-Same :
      (env : Env) (mode : ℕ) (v : Vm) → Same v0 v → Keeps (start_addrs env mode v) (Same v0)
  unfolding start_addrs
  start_addrs-Same env mode v s =
      Keeps-if (Same v0) (without_settle mode == 6) _ _
        (λ _. start_with-Same (startallwithdrawn env.heap) settle_withdrawn mode v s)
        λ _.
          Keeps-if (Same v0) (without_settle mode == 2) _ _
            (λ _. start_with-Same (startwithdrawn env.heap) settle_withdrawn mode v s)
            λ _.
              Keeps-if (Same v0) (without_settle mode == 5) _ _
                (λ _. start_with-Same startallnlri settle_nlri mode v s)
                λ _.
                  Keeps-if (Same v0) (without_settle mode == 1) _ _
                    (λ _. start_with-Same startnlri settle_nlri mode v s) (λ _. s)

  pub start_path-Same :
      (env : Env) (mode : ℕ) (v : Vm) → Same v0 v → Keeps (start_path env mode v) (Same v0)
  unfolding start_path
  start_path-Same env mode v s =
      Keeps-if (Same v0) (without_settle mode == 1) _ _
        (λ _. start_with-Same (startaspath env.heap) settle_aspath mode v s)
        λ _.
          Keeps-if (Same v0) (without_settle mode == 2) _ _
            (λ _. start_with-Same (startas4path env.heap) settle_aspath mode v s)
            λ _.
              Keeps-if (Same v0) (without_settle mode == 4) _ _
                (λ _. start_with-Same (startrealaspath env.heap) settle_aspath mode v s) (λ _. s)

  pub prepare-Same :
      (start : ℕ → Vm → Exec) (mode : ℕ) (v : Vm)
      → Same v0 v
      → ((v : Vm) → Same v0 v → Keeps (start mode v) (Same v0))
      → Keeps (prepare start mode v) (Same v0)
  unfolding prepare
  prepare-Same start mode v s k =
      then_Same v0 (settle_first mode v) _
        (Keeps-if (Same v0) (wants_settle mode) _ _ (λ _. vm_exec_settle-Same v0 v s) (λ _. s))
        λ _ v s. Keeps-if (Same v0) (v.access_mask == mode) _ _ (λ _. s) (λ _. k v s)

  test_addr-Same :
      (test : TrieTest) (env : Env) (a : Netaddr) (v : Vm)
      → Same v0 v
      → Keeps (test_addr test env a v) (Same v0)
  unfolding test_addr
  test_addr-Same test env a v s =
      elim (a.family)
        as (λ (f : Family).
          Keeps {0} {A = Bool}
            (elim f [
              | inet6 ↦ walked (test env (v.tries v.curtrie6) a) v
              | inet ↦ walked (test env (v.tries v.curtrie) a) v
              | unspec ↦ vm_abort vm_surprising_bytes v
            ])
            (Same v0)) [ inet6 ↦ walked-Same v0 _ v s | inet ↦ walked-Same v0 _ v s | unspec ↦ s ]

  scan_addrs-Same :
      (fuel : ℕ) (test : TrieTest) (env : Env) (access : ℕ) (v : Vm)
      → Same v0 v
      → Keeps (scan_addrs fuel test env access v) (Same v0)
  unfolding scan_addrs
  scan_addrs-Same zero test env access v s = tt
  scan_addrs-Same (suc fuel) test env access v s =
      then_Same v0 (on_bgp (next_addr env access) v) _ (on_bgp-Same v0 (next_addr env access) v s)
        λ r v s. Keeps-option (Same v0) r _ _ s (λ p.
          then_Same v0 (test_addr test env p.pfx v) _ (test_addr-Same test env p.pfx v s)
            λ found v s.
              Keeps-if (Same v0) found _ _ (λ _. s) (λ _. scan_addrs-Same fuel test env access v s))

  each_addr-Same :
      (fuel : ℕ) (next : Msg → Outcome (Option Netaddrap)) (use_addr : Netaddr → Vm → Exec) (v : Vm)
      → Same v0 v
      → ((a : Netaddr) (v : Vm) → Same v0 v → Keeps (use_addr a v) (Same v0))
      → Keeps (each_addr fuel next use_addr v) (Same v0)
  unfolding each_addr
  each_addr-Same zero next use_addr v s k = tt
  each_addr-Same (suc fuel) next use_addr v s k =
      then_Same v0 (on_bgp next v) _ (on_bgp-Same v0 next v s) λ r v s.
        Keeps-option (Same v0) r _ _ s (λ p.
          then_Same v0 (use_addr p.pfx v) _ (k p.pfx v s)
            λ _ v s. each_addr-Same fuel next use_addr v s k)

  pub through-Same :
      (env : Env) (start : Msg → Outcome Err) (next : Msg → Outcome (Option Netaddrap))
      → (end : Msg → Outcome Err) (use_addr : Netaddr → Vm → Exec) (v : Vm) → Same v0 v
      → ((a : Netaddr) (v : Vm) → Same v0 v → Keeps (use_addr a v) (Same v0))
      → Keeps (through env start next end use_addr v) (Same v0)
  unfolding through
  through-Same env start next end use_addr v s k =
      Keeps-if (Same v0) (is_update v.bgp) _ _
        (λ _. then_Same v0 (on_bgp start v) _ (on_bgp-Same v0 start v s) λ _ v s.
          then_Same v0 (each_addr env.rounds next use_addr v) _
            (each_addr-Same env.rounds next use_addr v s k)
            λ _ v s.
              then_Same v0 (on_bgp end v) _ (on_bgp-Same v0 end v s)
                λ err v s. Keeps-if (Same v0) (is_err err) _ _ (λ _. s) (λ _. s))
        (λ _. s)

  module _ (env : Env) (no_block : env.realloc 0 ≡ false) where
    pub vm_exec_hasattr-Same :
        (code : ℕ) (v : Vm) → Same v0 v → Keeps (vm_exec_hasattr env code v) (Same v0)
    unfolding vm_exec_hasattr
    vm_exec_hasattr-Same code v s =
        Keeps-if (Same v0) (is_update v.bgp) _ _
          (λ _. then_Same v0 (vm_exec_settle v) _ (vm_exec_settle-Same v0 v s) λ _ v s.
            then_Same v0 (look_up env code v) _ (look_up-Same env code v s) λ r v s.
              push_with-Same v0 env no_block
                (value_cell (truth (elim r [ none ↦ false | some a ↦ true ]))) v s)
          (λ _. s)

    pub match_addrs-Same :
        (test : TrieTest) (access : ℕ) (v : Vm)
        → Same v0 v
        → Keeps (match_addrs test env access v) (Same v0)
    unfolding match_addrs
    match_addrs-Same test access v s =
        Keeps-if (Same v0) (is_update v.bgp) _ _
          (λ _.
            then_Same v0 (vm_prepare_addr_access env access v) _
              (prepare-Same (start_addrs env) access v s (start_addrs-Same env access))
              λ _ v s.
                then_Same v0 (scan_addrs env.rounds test env access v) _
                  (scan_addrs-Same env.rounds test env access v s)
                  λ result v s. push_with-Same v0 env no_block (value_cell (truth result)) v s)
          (λ _. s)
