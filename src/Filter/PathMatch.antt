-- ===== src/Filter/PathMatch.antt =====
-- What the instructions on AS paths answer, in terms of the list of ASes that `nextaspath` yields
-- (src/ubgp/filterintrin.c).
use ubgpsuite.Base.{
  ℕ, zero, suc, ◌+◌, ◌<◌, ◌≡◌, refl, Bool, true, false, if◌then◌else◌, Bool-cases, inl, inr, subst,
  sym, ◌∙◌, if_true, if_false, Option, none, some, arith, List, [], ◌∷◌,
}
use ubgpsuite.Bgp.State.{Msg, AsPathent, Outcome, ret}
use ubgpsuite.Bgp.Path.{nextaspath}
use ubgpsuite.Filter.State.{Vm, Run, done, Exec, ◌>>=◌, Env, as_of, on_bgp}
use ubgpsuite.Filter.Paths.{
  as_fits, answer, starts_loop, vm_exec_aspstarts, exact_run, vm_exec_aspexact,
}
use ubgpsuite.Filter.Returns.{
  Ends, Ends-bind, Yields, pattern_of, fits, starts_with, matches_all, Answered, answer-Answered,
  Kept, next_run, Ends-if, Ends-map, Prepared,
}

-- The loop of `vm_exec_aspstarts` compares the cells with the ASes to come.
starts_loop_lem :
    (left : ℕ) (env : Env) (i : ℕ) (v : Vm) (xs : List ℕ)
    → Yields xs v.bgp
    → Ends
        (starts_loop left env i v)
        (λ b v'. (b ≡ starts_with (pattern_of env.layout v.sp i left) xs) × Kept v v')
unfolding starts_loop starts_with
starts_loop_lem zero env i v xs y = (refl, (refl, refl, refl))
starts_loop_lem (suc left) env i v [] (e, e', run, again) =
    next_run v none e _ _ run (refl, (refl, refl, refl))
starts_loop_lem (suc left) env i v (x ∷ xs) (ent, m', run, same, rest) =
    let lay = env.layout in
    let fit = λ (a : ℕ). fits (as_of lay (v.sp i)) a in
    let whole = starts_with (pattern_of lay v.sp (i + 1) left) xs in
    next_run v (some ent) m' _ _ run (
      Ends-if (as_fits env v i ent.as_number) _ _ _
        (λ e.
          Ends-map (starts_loop left env (i + 1) (record v { bgp = m' })) _ _
            (starts_loop_lem left env (i + 1) (record v { bgp = m' }) xs rest)
            (λ b v' (f, kept).
              (f ∙ sym (if_true _ _ _ (subst (λ (a : ℕ). fit a ≡ true) same e)), kept)))
        (λ e. (
          sym (if_false (fit x) whole false (subst (λ (a : ℕ). fit a ≡ false) same e)),
          (refl, refl, refl),
        )))

next_run_then {ℓ κ} :
    {B : Type ℓ} {C : Type κ} (v : Vm) (r : Option AsPathent) (m : Msg)
    → (f : Option AsPathent → Vm → Run B) (g : B → Vm → Run C) (P : C → Vm → Type 0)
    → nextaspath v.bgp ≡ ret r m
    → Ends (f r (record v { bgp = m }) >>= g) P
    → Ends ((on_bgp nextaspath v >>= f) >>= g) P
next_run_then v r m f g P run h =
    subst (λ (o : Outcome (Option AsPathent)). Ends ((on_bgp (λ _. o) v >>= f) >>= g) P) (sym run) h

-- What `vm_exec_aspexact` does after its loop, and what it is after a mismatch.
abbrev last_look : Bool → Vm → Exec
last_look all v =
    on_bgp nextaspath v >>= λ r v. elim r [ none ↦ answer all v | some ent ↦ answer false v ]

last_look-false :
    (v : Vm) (xs : List ℕ)
    → Yields xs v.bgp
    → 0 < v.stacksiz
    → Ends (last_look false v) (λ _ v'. Answered false v')
last_look-false v [] (e, e', run, again) h =
    next_run v none e _ _ run (answer-Answered false (record v { bgp = e }) h)
last_look-false v (x ∷ xs) (ent, m', run, same, rest) h =
    next_run v (some ent) m' _ _ run (answer-Answered false (record v { bgp = m' }) h)

-- The loop and the look at the end of the path.
exact_loop_lem :
    (left : ℕ) (env : Env) (i : ℕ) (v : Vm) (xs : List ℕ)
    → Yields xs v.bgp
    → 0 < v.stacksiz
    → Ends
        (starts_loop left env i v >>= last_look)
        (λ _ v'. Answered (matches_all (pattern_of env.layout v.sp i left) xs) v')
unfolding starts_loop matches_all
exact_loop_lem zero env i v [] (e, e', run, again) h =
    next_run v none e _ _ run (answer-Answered true (record v { bgp = e }) h)
exact_loop_lem zero env i v (x ∷ xs) (ent, m', run, same, rest) h =
    next_run v (some ent) m' _ _ run (answer-Answered false (record v { bgp = m' }) h)
exact_loop_lem (suc left) env i v [] (e, e', run, again) h = next_run_then v none e _ _ _ run (
    next_run (record v { bgp = e }) none e' _ _ again
      (answer-Answered false (record v { bgp = e' }) h))
exact_loop_lem (suc left) env i v (x ∷ xs) (ent, m', run, same, rest) h =
    let lay = env.layout in
    let fit = λ (a : ℕ). fits (as_of lay (v.sp i)) a in
    let whole = matches_all (pattern_of lay v.sp (i + 1) left) xs in
    let v1 : Vm = record v { bgp = m' } in
    let P = λ (b : Bool) (o : Run Bool). Ends (o >>= last_look) (λ _ v'. Answered b v') in
    next_run_then v (some ent) m' _ _ _ run (elim (Bool-cases (fit ent.as_number)) [
      | inl e ↦
          subst
            (λ (b : Bool).
              P b (if fit ent.as_number then starts_loop left env (i + 1) v1 else done false v1))
            (sym (if_true (fit x) whole false (subst (λ (a : ℕ). fit a ≡ true) same e)))
            (subst (P whole) (sym (if_true (fit ent.as_number) _ _ e))
              (exact_loop_lem left env (i + 1) v1 xs rest h))
      | inr e ↦
          subst
            (λ (b : Bool).
              P b (if fit ent.as_number then starts_loop left env (i + 1) v1 else done false v1))
            (sym (if_false (fit x) whole false (subst (λ (a : ℕ). fit a ≡ false) same e)))
            (subst (P false) (sym (if_false (fit ent.as_number) _ _ e))
              (last_look-false v1 xs rest h))
    ])

-- Where the message is an update and its path is prepared, ASPSTARTS returns and leaves one cell,
-- which says whether the ASes that the path yields begin with those of the stack, from the bottom
-- up, where AS_ANY stands for any AS.
pub vm_exec_aspstarts_lem :
    (env : Env) (access : ℕ) (v v1 : Vm) (xs : List ℕ)
    → Prepared env access v v1 xs
    → Ends
        (vm_exec_aspstarts env access v)
        (λ _ v'. Answered (starts_with (pattern_of env.layout v1.sp 0 v1.si) xs) v')
unfolding vm_exec_aspstarts
vm_exec_aspstarts_lem env access v v1 xs p =
    let pat = pattern_of env.layout v1.sp 0 v1.si in
    let P = λ (_ : Unit {0}) (v' : Vm). Answered (starts_with pat xs) v' in
    let rest = λ (_ : Unit {0}) (v : Vm). starts_loop v.si env 0 v >>= λ value v. answer value v in
    subst (λ (o : Exec). Ends o P) (sym (if_true _ _ _ p.update))
      (subst (λ (o : Exec). Ends (o >>= rest) P) (sym p.prepared)
        (Ends-bind (starts_loop v1.si env 0 v1) _ _ P (starts_loop_lem v1.si env 0 v1 xs p.path)
          (λ b v' (same, (sp, si, size)).
            subst (λ (c : Bool). Ends (answer b v') (λ _ v'. Answered c v')) same
              (answer-Answered b v' (omega (arith, size, p.room))))))

-- Where the message is an update and its path is prepared, ASPEXACT returns and leaves one cell,
-- which says whether the ASes that the path yields are as many as the cells of the stack and match
-- them one by one.
pub vm_exec_aspexact_lem :
    (env : Env) (access : ℕ) (v v1 : Vm) (xs : List ℕ)
    → Prepared env access v v1 xs
    → Ends
        (vm_exec_aspexact env access v)
        (λ _ v'. Answered (matches_all (pattern_of env.layout v1.sp 0 v1.si) xs) v')
unfolding vm_exec_aspexact
vm_exec_aspexact_lem env access v v1 xs p =
    let pat = pattern_of env.layout v1.sp 0 v1.si in
    let P = λ (_ : Unit {0}) (v' : Vm). Answered (matches_all pat xs) v' in
    subst (λ (o : Exec). Ends o P) (sym (if_true _ _ _ p.update))
      (subst (λ (o : Exec). Ends (o >>= λ _ v. exact_run env v) P) (sym p.prepared)
        (exact_loop_lem v1.si env 0 v1 xs p.path p.room))
