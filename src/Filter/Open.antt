-- ===== src/Filter/Open.antt =====
-- The iterations over the message that the filter machine keeps open
-- (src/ubgp/filterintrin.h, src/ubgp/filterintrin.c, src/ubgp/filterpacket.c).
use ubgpsuite.Base.{
  ℕ, ◌≡◌, refl, ap, Bool, true, false, ◌==◌, if◌then◌else◌, subst, ◌∙◌, if_true, if_false, arith,
}
use ubgpsuite.Bgp.State.{Msg, Err, Outcome}
use ubgpsuite.Bgp.Write.{startwithdrawn, startallwithdrawn, startnlri, startallnlri}
use ubgpsuite.Filter.State.{
  Vm, Run, done, aborted, wild, crashed, stuck, unfinished, Exec, ◌>>=◌, Env, Settle,
  settle_withdrawn, settle_nlri, on_bgp,
}
use ubgpsuite.Filter.Basic.{vm_exec_settle}
use ubgpsuite.Filter.Access.{
  wants_settle, without_settle, settle_first, start_with, start_addrs, start_path, prepare,
  vm_prepare_addr_access, vm_prepare_as_access,
}

-- Wherever the run returns, the state has the property.
abbrev pub Leaves {ℓ} : {A : Type ℓ} → Run A → (Vm → Type 0) → Type 0
Leaves (done a v) P = P v
Leaves _ P = Unit

Leaves-bind {ℓ κ} :
    {A : Type ℓ} {B : Type κ} (P Q : Vm → Type 0) (o : Run A) (f : A → Vm → Run B)
    → Leaves o P
    → ((a : A) (v : Vm) → P v → Leaves (f a v) Q)
    → Leaves (o >>= f) Q
Leaves-bind P Q (done a v) f h k = k a v h
Leaves-bind P Q (aborted v) f h k = tt
Leaves-bind P Q wild f h k = tt
Leaves-bind P Q crashed f h k = tt
Leaves-bind P Q stuck f h k = tt
Leaves-bind P Q unfinished f h k = tt

anything {ℓ} : {A : Type ℓ} (o : Run A) → Leaves o (λ v. Unit {0})
anything (done a v) = tt
anything (aborted v) = tt
anything wild = tt
anything crashed = tt
anything stuck = tt
anything unfinished = tt

-- The accessor that was prepared last is noted.
start_leaves :
    (f : Msg → Outcome Err) (e : Settle) (mode : ℕ) (v : Vm)
    → Leaves (start_with f e mode v) (λ v'. v'.access_mask ≡ mode)
start_leaves f e mode v =
    Leaves-bind (λ v. Unit {0}) (λ v'. v'.access_mask ≡ mode) (on_bgp f v)
      (λ _ v. done tt (record v { settle_func = e; access_mask = mode })) (anything (on_bgp f v))
      (λ _ v h. refl)

Leaves-if {ℓ} :
    {A : Type ℓ} (P : Vm → Type 0) (b : Bool) (o r : Run A)
    → (b ≡ true → Leaves o P)
    → (b ≡ false → Leaves r P)
    → Leaves (if b then o else r) P
Leaves-if P true o r h k = h refl
Leaves-if P false o r h k = k refl

start_addrs_mask :
    (env : Env) (mode : ℕ) (v : Vm) → Leaves (start_addrs env mode v) (λ v'. v'.access_mask ≡ mode)
unfolding start_addrs
start_addrs_mask env mode v =
    let P = λ (v' : Vm). v'.access_mask ≡ mode in
    let kind = without_settle mode in
    Leaves-if P (kind == 6) _ _
      (λ _. start_leaves (startallwithdrawn env.heap) settle_withdrawn mode v)
      λ _.
        Leaves-if P (kind == 2) _ _
          (λ _. start_leaves (startwithdrawn env.heap) settle_withdrawn mode v)
          λ _.
            Leaves-if P (kind == 5) _ _ (λ _. start_leaves startallnlri settle_nlri mode v)
              λ _.
                Leaves-if P (kind == 1) _ _ (λ _. start_leaves startnlri settle_nlri mode v)
                  (λ _. tt)

prepared_mask :
    (env : Env) (mode : ℕ) (v : Vm)
    → Leaves (vm_prepare_addr_access env mode v) (λ v'. v'.access_mask ≡ mode)
unfolding prepare
prepared_mask env mode v =
    let P = λ (v' : Vm). v'.access_mask ≡ mode in
    Leaves-bind (λ v. Unit {0}) P (settle_first mode v) _ (anything (settle_first mode v))
      (λ _ v h.
        Leaves-if P (v.access_mask == mode) _ _ (λ e. ground (arith, e))
          (λ _. start_addrs_mask env mode v))

-- Accessors of prefixes and of AS paths share their bits. Where an access to prefixes has been
-- prepared, an access to an AS path with the same bits, and without SETTLE, starts nothing: the
-- machine, with the iteration over prefixes, is left as it is.
pub vm_prepare_as_access_confused :
    (env : Env) (mode : ℕ) (v v' : Vm)
    → wants_settle mode ≡ false
    → vm_prepare_addr_access env mode v ≡ done tt v'
    → vm_prepare_as_access env mode v' ≡ done tt v'
unfolding prepare
vm_prepare_as_access_confused env mode v v' no_settling ran =
    let P = λ (v' : Vm). v'.access_mask ≡ mode in
    let mask : v'.access_mask ≡ mode =
      subst (λ (o : Exec). Leaves o P) ran (prepared_mask env mode v) in
    let k = λ (_ : Unit {0}) (v : Vm).
      if v.access_mask == mode then done tt v else start_path env mode v in
    ap (λ (o : Exec). o >>= k)
      (if_false (wants_settle mode) (vm_exec_settle v') (done tt v') no_settling)
    ∙ if_true (v'.access_mask == mode) _ _ (ground (arith, mask))
