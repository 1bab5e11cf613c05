-- ===== src/Filter/FramePaths.antt =====
-- What the instructions of the filter machine on AS paths and communities keep
-- (src/ubgp/filterintrin.c).
use ubgpsuite.Base.{
  ℕ, zero, suc, ◌+◌, Bool, true, false, ◌==◌, if◌then◌else◌, arith, List, [], ◌∷◌, ◌++◌,
}
use ubgpsuite.Attr.Header.{community_code}
use ubgpsuite.Bgp.Fields.{endcommunities}
use ubgpsuite.Bgp.Path.{nextaspath}
use ubgpsuite.Bgp.Communities.{
  Community, community, excommunity, largecommunity, startcommunities, nextcommunity,
}
use ubgpsuite.Filter.State.{Vm, crashed, Env, on_bgp, value_cell, truth, vm_clearstack}
use ubgpsuite.Filter.Access.{is_update, start_path, vm_prepare_as_access}
use ubgpsuite.Filter.Paths.{
  as_fits, answer, length, starts_loop, vm_exec_aspstarts, exact_run, vm_exec_aspexact, Match,
  matched, mismatch, ended, match_cells, slide, match_loop, vm_exec_aspmatch, window_loop, fits_all,
  vm_exec_aspends, mark_seen, seen_loop, unseen, vm_exec_commexact,
}
use ubgpsuite.Filter.Frame.{
  Same, Keeps, Keeps-if, Keeps-option, then_Same, on_bgp-Same, put_cell-Same,
}
use ubgpsuite.Filter.FramePacket.{start_path-Same, prepare-Same}

module _ (v0 : Vm) where
  answer-Same : (b : Bool) (v : Vm) → Same v0 v → Keeps (answer b v) (Same v0)
  answer-Same b v s =
      let ((l, z, w, m, ks, cs), p) = s in
      put_cell-Same v0 (value_cell (truth b)) (vm_clearstack v) ((omega arith, z, w, m, ks, cs), p)
        z

  starts_loop-Same :
      (left : ℕ) (env : Env) (i : ℕ) (v : Vm)
      → Same v0 v
      → Keeps (starts_loop left env i v) (Same v0)
  unfolding starts_loop
  starts_loop-Same zero env i v s = s
  starts_loop-Same (suc left) env i v s =
      then_Same v0 (on_bgp nextaspath v) _ (on_bgp-Same v0 nextaspath v s) λ r v s.
        Keeps-option (Same v0) r _ _ s (λ ent.
          Keeps-if (Same v0) (as_fits env v i ent.as_number) _ _
            (λ _. starts_loop-Same left env (i + 1) v s) (λ _. s))

  prepared-Same :
      (env : Env) (access : ℕ) (v : Vm)
      → Same v0 v
      → Keeps (vm_prepare_as_access env access v) (Same v0)
  prepared-Same env access v s =
      prepare-Same v0 (start_path env) access v s (start_path-Same v0 env access)

  pub vm_exec_aspstarts-Same :
      (env : Env) (access : ℕ) (v : Vm)
      → Same v0 v
      → Keeps (vm_exec_aspstarts env access v) (Same v0)
  unfolding vm_exec_aspstarts
  vm_exec_aspstarts-Same env access v s =
      Keeps-if (Same v0) (is_update v.bgp) _ _
        (λ _.
          then_Same v0 (vm_prepare_as_access env access v) _ (prepared-Same env access v s) λ _ v s.
            then_Same v0 (starts_loop v.si env 0 v) _ (starts_loop-Same v.si env 0 v s)
              λ b v s. answer-Same b v s)
        (λ _. s)

  exact_run-Same : (env : Env) (v : Vm) → Same v0 v → Keeps (exact_run env v) (Same v0)
  exact_run-Same env v s =
      then_Same v0 (starts_loop v.si env 0 v) _ (starts_loop-Same v.si env 0 v s) λ all v s.
        then_Same v0 (on_bgp nextaspath v) _ (on_bgp-Same v0 nextaspath v s) λ r v s.
          Keeps-option (Same v0) r (answer all v) (λ _. answer false v) (answer-Same all v s)
            (λ _. answer-Same false v s)

  pub vm_exec_aspexact-Same :
      (env : Env) (access : ℕ) (v : Vm)
      → Same v0 v
      → Keeps (vm_exec_aspexact env access v) (Same v0)
  unfolding vm_exec_aspexact
  vm_exec_aspexact-Same env access v s =
      Keeps-if (Same v0) (is_update v.bgp) _ _
        (λ _.
          then_Same v0 (vm_prepare_as_access env access v) _ (prepared-Same env access v s)
            λ _ v s. exact_run-Same env v s)
        (λ _. s)

  match_cells-Same :
      (left : ℕ) (env : Env) (i : ℕ) (ahead : List ℕ) (v : Vm)
      → Same v0 v
      → Keeps (match_cells left env i ahead v) (Same v0)
  unfolding match_cells
  match_cells-Same zero env i ahead v s = s
  match_cells-Same (suc left) env i [] v s =
      then_Same v0 (on_bgp nextaspath v) _ (on_bgp-Same v0 nextaspath v s) λ r v s.
        Keeps-option (Same v0) r _ _ s (λ ent.
          Keeps-if (Same v0) (as_fits env v i ent.as_number) _ _
            (λ _.
              then_Same v0 (match_cells left env (i + 1) [] v) _
                (match_cells-Same left env (i + 1) [] v s) (λ r v s. s))
            (λ _. s))
  match_cells-Same (suc left) env i (a ∷ ahead) v s =
      Keeps-if (Same v0) (as_fits env v i a) _ _
        (λ _.
          then_Same v0 (match_cells left env (i + 1) ahead v) _
            (match_cells-Same left env (i + 1) ahead v s) (λ r v s. s))
        (λ _. s)

  match_loop-Same :
      (fuel : ℕ) (env : Env) (buf : List ℕ) (v : Vm)
      → Same v0 v
      → Keeps (match_loop fuel env buf v) (Same v0)
  unfolding match_loop
  match_loop-Same zero env buf v s = tt
  match_loop-Same (suc fuel) env buf v s =
      then_Same v0 (match_cells v.si env 0 buf v) _ (match_cells-Same v.si env 0 buf v s) λ r v s.
        elim (r.0)
          as (λ (x : Match).
            Keeps {0} {A = Unit {0}}
              (elim x [
                | matched ↦ answer true v
                | ended ↦ answer false v
                | mismatch ↦ match_loop fuel env (slide r.1) v
              ])
              (Same v0)) [
                | matched ↦ answer-Same true v s
                | ended ↦ answer-Same false v s
                | mismatch ↦ match_loop-Same fuel env (slide r.1) v s
              ]

  pub vm_exec_aspmatch-Same :
      (env : Env) (access : ℕ) (v : Vm)
      → Same v0 v
      → Keeps (vm_exec_aspmatch env access v) (Same v0)
  unfolding vm_exec_aspmatch
  vm_exec_aspmatch-Same env access v s =
      Keeps-if (Same v0) (is_update v.bgp) _ _
        (λ _.
          then_Same v0 (vm_prepare_as_access env access v) _ (prepared-Same env access v s)
            λ _ v s. match_loop-Same env.rounds env [] v s)
        (λ _. s)

  window_loop-Same :
      (fuel : ℕ) (buf : List ℕ) (v : Vm) → Same v0 v → Keeps (window_loop fuel buf v) (Same v0)
  unfolding window_loop
  window_loop-Same zero buf v s = tt
  window_loop-Same (suc fuel) buf v s =
      then_Same v0 (on_bgp nextaspath v) _ (on_bgp-Same v0 nextaspath v s) λ r v s.
        Keeps-option (Same v0) r _ _ s (λ ent.
          Keeps-if (Same v0) (v.si == 0) _ _ (λ _. tt)
            (λ _.
              window_loop-Same fuel
                ((if length buf == v.si then slide buf else buf) ++ (ent.as_number ∷ [])) v s))

  pub vm_exec_aspends-Same :
      (env : Env) (access : ℕ) (v : Vm) → Same v0 v → Keeps (vm_exec_aspends env access v) (Same v0)
  unfolding vm_exec_aspends
  vm_exec_aspends-Same env access v s =
      Keeps-if (Same v0) (is_update v.bgp) _ _
        (λ _.
          then_Same v0 (vm_prepare_as_access env access v) _ (prepared-Same env access v s) λ _ v s.
            then_Same v0 (window_loop env.rounds [] v) _ (window_loop-Same env.rounds [] v s)
              λ buf v s.
                Keeps-if (Same v0) (length buf == v.si) (answer (fits_all env v 0 buf) v)
                  (answer false v) (λ _. answer-Same (fits_all env v 0 buf) v s)
                  (λ _. answer-Same false v s))
        (λ _. s)

  seen_loop-Same :
      (fuel : ℕ) (env : Env) (seen : List Bool) (count : ℕ) (v : Vm)
      → Same v0 v
      → Keeps (seen_loop fuel env seen count v) (Same v0)
  unfolding seen_loop
  seen_loop-Same zero env seen count v s = tt
  seen_loop-Same (suc fuel) env seen count v s =
      then_Same v0 (on_bgp nextcommunity v) _ (on_bgp-Same v0 nextcommunity v s) λ r v s.
        Keeps-option (Same v0) r _ _ s (λ c.
          Keeps-if (Same v0) (count == v.si) _ _ (λ _. s)
            (λ _.
              elim c
                as (λ (x : Community).
                  Keeps {0} {A = ℕ}
                    (elim x [
                      | community n ↦
                          let marked = mark_seen env v n 0 seen in
                          seen_loop fuel env marked.0 (count + marked.1) v
                      | excommunity b ↦ crashed
                      | largecommunity g h l ↦ crashed
                    ])
                    (Same v0)) [
                      | community n ↦
                          let marked = mark_seen env v n 0 seen in
                          seen_loop-Same fuel env marked.0 (count + marked.1) v s
                      | excommunity b ↦ tt
                      | largecommunity g h l ↦ tt
                    ]))

  pub vm_exec_commexact-Same :
      (env : Env) (v : Vm) → Same v0 v → Keeps (vm_exec_commexact env v) (Same v0)
  unfolding vm_exec_commexact
  vm_exec_commexact-Same env v s =
      Keeps-if (Same v0) (is_update v.bgp) _ _
        (λ _.
          then_Same v0 (on_bgp (λ m. startcommunities env.heap m community_code) v) _
            (on_bgp-Same v0 (λ m. startcommunities env.heap m community_code) v s)
            λ _ v s.
              then_Same v0 (seen_loop env.rounds env (unseen v.si) 0 v) _
                (seen_loop-Same env.rounds env (unseen v.si) 0 v s)
                λ count v s.
                  then_Same v0 (on_bgp endcommunities v) _ (on_bgp-Same v0 endcommunities v s)
                    (λ _ v s. answer-Same (count == v.si) v s))
        (λ _. s)
