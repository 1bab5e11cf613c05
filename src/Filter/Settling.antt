-- ===== src/Filter/Settling.antt =====
-- The iteration over the message that the filter machine has noted is closed when the filter returns
-- (src/ubgp/filterintrin.c, src/ubgp/filterpacket.c).
use ubgpsuite.Base.{
  ℕ, ◌≡◌, refl, ap, Bool, true, false, not, ltb, ◌==◌, if◌then◌else◌, Bool-cases, ◌⊎◌, inl, inr,
  subst, sym, ◌∙◌, if_true, if_false, none,
}
use ubgpsuite.Bgp.State.{Msg, Flags, Err, noerr, Outcome, ret, check_flags_r_ok}
use ubgpsuite.Bgp.Fields.{
  bgprestore, put_field_len, clear_withdrn, clear_nlri, endwithdrawn, endnlri, endaspath,
}
use ubgpsuite.Filter.State.{
  Vm, Run, done, aborted, wild, crashed, stuck, unfinished, Exec, ◌>>=◌, Env, Cell, Settle,
  no_settle, settle_withdrawn, settle_nlri, settle_aspath, on_bgp, vm_abort, vm_stack_underflow,
  vm_dangling_blk, value_of, vm_pop,
}
use ubgpsuite.Filter.Basic.{vm_exec_settle}
use ubgpsuite.Filter.Loop.{
  Verdict, verdict, failed, finish, catch, prepare_tries, restarted, plain_loop, goto_loop,
  bgp_filter,
}
use ubgpsuite.Filter.Returns.{Ends}

-- The iteration that is noted is open in the message.
abbrev pub IsOpen : Settle → Flags → Type 0
IsOpen no_settle f = Unit
IsOpen settle_withdrawn f = f.withdrn ≡ true
IsOpen settle_nlri f = f.nlri ≡ true
IsOpen settle_aspath f = f.aspath ≡ true

-- It is closed, in all its forms.
abbrev pub IsClosed : Settle → Flags → Type 0
IsClosed no_settle f = Unit
IsClosed settle_withdrawn f = (f.withdrn ≡ false) × (f.allwithdrn ≡ false)
IsClosed settle_nlri f = (f.nlri ≡ false) × (f.allnlri ≡ false)
IsClosed settle_aspath f = (f.aspath ≡ false) × (f.realaspath ≡ false)

-- No iteration is noted any more, and the one that was is closed in the message.
abbrev pub Settled : Settle → Vm → Type 0
Settled e v = (v.settle_func ≡ no_settle) × IsClosed e v.bgp.flags

-- A function of the message's module returns, with a message that has the property.
abbrev Gives : (Msg → Outcome Err) → Msg → (Msg → Type 0) → Type 0
Gives f m P = (r : Err) × (m' : Msg) × (f m ≡ ret r m') × P m'

endwithdrawn-IsClosed :
    (m : Msg)
    → m.err ≡ noerr
    → m.flags.wr ≡ false
    → m.flags.withdrn ≡ true
    → Gives endwithdrawn m (λ m'. IsClosed settle_withdrawn m'.flags)
unfolding endwithdrawn
endwithdrawn-IsClosed m ok reading open_ = (
  noerr,
  clear_withdrn m,
  check_flags_r_ok (λ f. f.withdrn) (λ e. e) m
        (λ m.
          if m.flags.wr
          then bgprestore m (λ m. put_field_len m (λ m. ret noerr (clear_withdrn m)))
          else ret noerr (clear_withdrn m))
        open_ ok
      ∙ if_false m.flags.wr (bgprestore m (λ m. put_field_len m (λ m. ret noerr (clear_withdrn m))))
          _ reading,
  (refl, refl),
)

endnlri-IsClosed :
    (m : Msg)
    → m.err ≡ noerr
    → m.flags.nlri ≡ true
    → Gives endnlri m (λ m'. IsClosed settle_nlri m'.flags)
unfolding endnlri
endnlri-IsClosed m ok open_ = (
  m.err,
  clear_nlri m,
  check_flags_r_ok (λ f. f.nlri) (λ e. e) m (λ m. ret m.err (clear_nlri m)) open_ ok,
  (refl, refl),
)

endaspath-IsClosed :
    (m : Msg)
    → m.err ≡ noerr
    → m.flags.aspath ≡ true
    → Gives endaspath m (λ m'. IsClosed settle_aspath m'.flags)
unfolding endaspath
endaspath-IsClosed m ok open_ = (
  noerr,
  record m { flags = record (m.flags) { aspath = false; realaspath = false } },
  check_flags_r_ok (λ f. f.aspath) (λ e. e) m
      (λ m.
        ret noerr (record m { flags = record (m.flags) { aspath = false; realaspath = false } }))
      open_ ok,
  (refl, refl),
)

-- The run returns a state that has the property.
abbrev Returned : Exec → (Vm → Type 0) → Type 0
Returned o P = (v' : Vm) × (o ≡ done tt v') × P v'

vm_exec_settle-Settled :
    (v : Vm)
    → v.bgp.err ≡ noerr
    → v.bgp.flags.wr ≡ false
    → IsOpen v.settle_func v.bgp.flags
    → Returned (vm_exec_settle v) (Settled v.settle_func)
unfolding vm_exec_settle
vm_exec_settle-Settled v ok reading is_open =
    let rest = λ (v : Vm). done tt (record v { settle_func = no_settle; access_mask = 0 }) in
    let ended : (f : Msg → Outcome Err) (e : Settle)
        → Gives f v.bgp (λ m'. IsClosed e m'.flags)
        → Returned (on_bgp f v >>= λ _ v. rest v) (Settled e) =
      λ f e (r, m', run, closed). (
        record v { bgp = m'; settle_func = no_settle; access_mask = 0 },
        ap (λ (o : Outcome Err). on_bgp (λ _. o) v >>= λ _ v. rest v) run,
        (refl, closed),
      ) in
    elim (v.settle_func)
        as (λ (e : Settle).
          v.settle_func ≡ e
          → IsOpen e v.bgp.flags
          → Returned
              (elim e [
                | no_settle ↦ done tt v
                | settle_withdrawn ↦ on_bgp endwithdrawn v >>= λ _ v. rest v
                | settle_nlri ↦ on_bgp endnlri v >>= λ _ v. rest v
                | settle_aspath ↦ on_bgp endaspath v >>= λ _ v. rest v
              ])
              (Settled e)) [
                | no_settle ↦ λ e h. (v, refl, (e, tt))
                | settle_withdrawn ↦ λ e h.
                    ended endwithdrawn settle_withdrawn (endwithdrawn-IsClosed v.bgp ok reading h)
                | settle_nlri ↦ λ e h. ended endnlri settle_nlri (endnlri-IsClosed v.bgp ok h)
                | settle_aspath ↦
                    λ e h. ended endaspath settle_aspath (endaspath-IsClosed v.bgp ok h)
              ]
      refl is_open

-- With nothing noted, settling does nothing.
vm_exec_settle_none : (v : Vm) → v.settle_func ≡ no_settle → vm_exec_settle v ≡ done tt v
unfolding vm_exec_settle
vm_exec_settle_none v e =
    let rest = λ (v : Vm). done tt (record v { settle_func = no_settle; access_mask = 0 }) in
    ap
      (λ (s : Settle). elim s as (λ _. Exec) [
        | no_settle ↦ done tt v
        | settle_withdrawn ↦ on_bgp endwithdrawn v >>= λ _ v. rest v
        | settle_nlri ↦ on_bgp endnlri v >>= λ _ v. rest v
        | settle_aspath ↦ on_bgp endaspath v >>= λ _ v. rest v
      ])
      e

-- The handler of errors, for a machine that is settled.
catch-Settled :
    (e : Settle) (v : Vm) → Settled e v → Ends (catch (aborted v)) (λ _ v'. Settled e v')
unfolding catch
catch-Settled e v (none_noted, closed) =
    subst (λ (o : Exec). Ends (o >>= λ _ v. done (failed v.error) v) (λ _ v'. Settled e v'))
      (sym (vm_exec_settle_none v none_noted)) (none_noted, closed)

-- What `finish` does after it has settled.
abbrev after_settling : Env → Vm → Run Verdict
after_settling env v =
    if ltb 0 v.curblk
    then vm_abort vm_dangling_blk v
    else vm_pop v >>= λ cell v. done (verdict (not (value_of env.layout cell == 0))) v

after_settling-Settled :
    (env : Env) (e : Settle) (v : Vm)
    → Settled e v
    → Ends (catch (after_settling env v)) (λ _ v'. Settled e v')
unfolding catch vm_pop
after_settling-Settled env e v s =
    let P = λ (o : Run Verdict). Ends (catch o) (λ _ v'. Settled e v') in
    let Q = λ (o : Run Cell).
      P (o >>= λ cell v. done (verdict (not (value_of env.layout cell == 0))) v) in
    elim (Bool-cases (ltb 0 v.curblk)) [
      | inl h ↦
          subst P (sym (if_true (ltb 0 v.curblk) _ _ h))
            (catch-Settled e (record v { error = vm_dangling_blk }) s)
      | inr h ↦ subst P (sym (if_false (ltb 0 v.curblk) _ _ h)) (elim (Bool-cases (v.si == 0)) [
        | inl k ↦
            subst Q (sym (if_true (v.si == 0) _ _ k))
              (catch-Settled e (record v { error = vm_stack_underflow }) s)
        | inr k ↦ subst Q (sym (if_false (v.si == 0) _ _ k)) s
      ])
    ]

run_assoc {ℓ κ μ} :
    {A : Type ℓ} {B : Type κ} {C : Type μ} (o : Run A) (f : A → Vm → Run B)
    → (g : B → Vm → Run C) → ((o >>= f) >>= g) ≡ (o >>= λ a v. f a v >>= g)
run_assoc (done a v) f g = refl
run_assoc (aborted v) f g = refl
run_assoc wild f g = refl
run_assoc crashed f g = refl
run_assoc stuck f g = refl
run_assoc unfinished f g = refl

-- How the loop leaves the machine: it ends, or an instruction aborts.
abbrev pub Stops : Exec → Vm → Type 0
Stops o v = (o ≡ done tt v) ⊎ (o ≡ aborted v)

-- `prepare_tries` and the loop of either build.
abbrev pub until_done : Bool → ℕ → Env → Msg → Vm → Exec
until_done plain fuel env msg v = prepare_tries env (restarted msg v) >>= λ _ v.
    if plain then plain_loop fuel env 0 v else goto_loop fuel env none 0 v

-- In both builds, where the run of the code stops in a state, at its end or by an error, in which the
-- message is open for reading and has no error, and the iteration that `settle_func` notes is open in
-- it: `bgp_filter` returns, with a verdict or an error; no iteration is noted any more, and the one
-- that was is closed in the message.
pub bgp_filter-Settled :
    (plain : Bool) (fuel : ℕ) (env : Env) (msg : Msg) (v v1 : Vm)
    → Stops (until_done plain fuel env msg v) v1
    → v1.bgp.err ≡ noerr
    → v1.bgp.flags.wr ≡ false
    → IsOpen v1.settle_func v1.bgp.flags
    → Ends (bgp_filter plain fuel env msg v) (λ _ v'. Settled v1.settle_func v')
unfolding bgp_filter finish catch
bgp_filter-Settled plain fuel env msg v v1 stops ok reading is_open =
    let e = v1.settle_func in
    let P = λ (o : Run Verdict). Ends o (λ _ v'. Settled e v') in
    let (v2, run, settled) = vm_exec_settle-Settled v1 ok reading is_open in
    let ended : P (catch (finish env v1)) =
      subst (λ (o : Exec). P (catch (o >>= λ _ v. after_settling env v))) (sym run)
        (after_settling-Settled env e v2 settled) in
    let failing : P (catch (aborted v1)) =
      subst (λ (o : Exec). P (o >>= λ _ v. done (failed v.error) v)) (sym run) settled in
    subst (λ (o : Run Verdict). P (catch o))
      (run_assoc (prepare_tries env (restarted msg v))
        (λ _ v. if plain then plain_loop fuel env 0 v else goto_loop fuel env none 0 v)
        (λ _ v. finish env v))
      (elim stops [
        | inl h ↦ subst (λ (o : Exec). P (catch (o >>= λ _ v. finish env v))) (sym h) ended
        | inr h ↦ subst (λ (o : Exec). P (catch (o >>= λ _ v. finish env v))) (sym h) failing
      ])
