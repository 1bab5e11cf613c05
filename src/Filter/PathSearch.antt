-- ===== src/Filter/PathSearch.antt =====
-- ASPMATCH looks for the ASes of the stack anywhere in the AS path (src/ubgp/filterintrin.c).
use ubgpsuite.Base.{
  ℕ, zero, suc, ◌+◌, ◌<◌, ◌≡◌, refl, ap, Bool, true, false, if◌then◌else◌, subst, sym, ◌∙◌, if_true,
  if_false, none, some, arith, List, [], ◌∷◌, ◌++◌,
}
use ubgpsuite.Filter.State.{Vm, Exec, ◌>>=◌, Env, Cell, Layout, as_of}
use ubgpsuite.Filter.Paths.{
  as_fits, answer, length, Match, matched, mismatch, ended, match_cells, slide, match_loop,
  vm_exec_aspmatch,
}
use ubgpsuite.Filter.Returns.{
  Ends, Ends-bind, Ends-if, Yields, pattern_of, fits, starts_with, Answered, answer-Answered, Kept,
  next_run, Prepared,
}

-- The pattern stands somewhere in the path.
unfoldable pub occurs : List ℕ → List ℕ → Bool
occurs ps [] = starts_with ps []
occurs ps (a ∷ l) = let later = occurs ps l in if starts_with ps (a ∷ l) then true else later

short_starts : (ps l : List ℕ) → length l < length ps → starts_with ps l ≡ false
unfolding starts_with
short_starts [] l h = absurd (omega arith)
short_starts (p ∷ ps) [] h = refl
short_starts (p ∷ ps) (a ∷ l) h =
    let rest = short_starts ps l (omega (arith, h)) in ground (arith, rest)

short_occurs : (ps l : List ℕ) → length l < length ps → occurs ps l ≡ false
unfolding occurs
short_occurs ps [] h = short_starts ps [] h
short_occurs ps (a ∷ l) h =
    if_false _ _ _ (short_starts ps (a ∷ l) h) ∙ short_occurs ps l (omega (arith, h))

starts_occurs : (ps l : List ℕ) → starts_with ps l ≡ true → occurs ps l ≡ true
unfolding occurs
starts_occurs ps [] h = h
starts_occurs ps (a ∷ l) h = if_true _ _ _ h

length-pattern_of :
    (lay : Layout) (sp : ℕ → Cell) (i left : ℕ) → length (pattern_of lay sp i left) ≡ left
length-pattern_of lay sp i zero = refl
length-pattern_of lay sp i (suc left) = ap suc (length-pattern_of lay sp (i + 1) left)

-- What a round finds of the ASes that are buffered and to come, `whole`, with the buffer `buf` after
-- it: the pattern, or the end of the path before its end, or a mismatch.
abbrev Finds : List ℕ → List ℕ → Match → List ℕ → Vm → Type 0
Finds pat whole matched buf v = starts_with pat whole ≡ true
Finds pat whole ended buf v = length whole < length pat
Finds pat whole mismatch buf v =
    (starts_with pat whole ≡ false)
    × ((a : ℕ) × (b : List ℕ) × (xs : List ℕ) × (buf ≡ a ∷ b)
        × (whole ≡ a ∷ (b ++ xs))
        × Yields xs v.bgp)

-- One more AS before what a round finds.
Finds-more :
    (p a : ℕ) (pat whole : List ℕ) (r : Match) (buf : List ℕ) (v : Vm)
    → fits p a ≡ true
    → Finds pat whole r buf v
    → Finds (p ∷ pat) (a ∷ whole) r (a ∷ buf) v
unfolding starts_with
Finds-more p a pat whole matched buf v e h = if_true _ _ _ e ∙ h
Finds-more p a pat whole ended buf v e h = omega (arith, h)
Finds-more p a pat whole mismatch buf v e (h, (a', b, xs, same, all, y)) = (
  if_true _ _ _ e ∙ h,
  (a, a' ∷ b, xs, ap (λ (l : List ℕ). a ∷ l) same, ap (λ (l : List ℕ). a ∷ l) all, y),
)

match_cells_lem :
    (left : ℕ) (env : Env) (i : ℕ) (ahead xs : List ℕ) (v : Vm)
    → Yields xs v.bgp
    → Ends
        (match_cells left env i ahead v)
        (λ r v'. Finds (pattern_of env.layout v.sp i left) (ahead ++ xs) r.0 r.1 v' × Kept v v')
unfolding match_cells starts_with
match_cells_lem zero env i ahead xs v y = (refl, (refl, refl, refl))
match_cells_lem (suc left) env i [] [] v (e, e', run, again) =
    next_run v none e _ _ run (omega arith, (refl, refl, refl))
match_cells_lem (suc left) env i [] (x ∷ xs) v (ent, m', run, same, rest) =
    let lay = env.layout in
    let v1 : Vm = record v { bgp = m' } in
    let pat = pattern_of lay v.sp (i + 1) left in
    let a = ent.as_number in
    next_run v (some ent) m' _ _ run (
      Ends-if (as_fits env v i a) _ _ _
        (λ e.
          Ends-bind (match_cells left env (i + 1) [] v1) _ _ _
            (match_cells_lem left env (i + 1) [] xs v1 rest)
            (λ r v' (f, kept). (
              subst (λ (y : ℕ). Finds (as_of lay (v.sp i) ∷ pat) (y ∷ xs) r.0 (a ∷ r.1) v') same
                  (Finds-more (as_of lay (v.sp i)) a pat xs r.0 r.1 v' e f),
              kept,
            )))
        (λ e. (
          subst (λ (y : ℕ). Finds (as_of lay (v.sp i) ∷ pat) (y ∷ xs) mismatch (a ∷ []) v1) same
              (if_false _ _ _ e, (a, [], xs, refl, refl, rest)),
          (refl, refl, refl),
        )))
match_cells_lem (suc left) env i (a ∷ ahead) xs v y =
    let lay = env.layout in
    let pat = pattern_of lay v.sp (i + 1) left in
    Ends-if (as_fits env v i a) _ _ _
      (λ e.
        Ends-bind (match_cells left env (i + 1) ahead v) _ _ _
          (match_cells_lem left env (i + 1) ahead xs v y)
          (λ r v' (f, kept).
            (Finds-more (as_of lay (v.sp i)) a pat (ahead ++ xs) r.0 r.1 v' e f, kept)))
      (λ e. ((if_false _ _ _ e, (a, ahead, xs, refl, refl, y)), (refl, refl, refl)))

-- What the rounds answer, from a buffer on, with a fuel.
abbrev Searches : Env → List ℕ → ℕ → Type 0
Searches env pat fuel =
    (buf xs : List ℕ) (v : Vm)
    → Yields xs v.bgp
    → 0 < v.stacksiz
    → pattern_of env.layout v.sp 0 v.si ≡ pat
    → length (buf ++ xs) < fuel
    → Ends (match_loop fuel env buf v) (λ _ v'. Answered (occurs pat (buf ++ xs)) v')

-- What comes after a round.
after_round :
    (env : Env) (pat whole : List ℕ) (fuel : ℕ) (r : Match) (b : List ℕ) (v : Vm)
    → Searches env pat fuel
    → Finds pat whole r b v
    → 0 < v.stacksiz
    → pattern_of env.layout v.sp 0 v.si ≡ pat
    → length whole < suc fuel
    → Ends
        (elim r as (λ (x : Match). Exec) [
          | matched ↦ answer true v
          | ended ↦ answer false v
          | mismatch ↦ match_loop fuel env (slide b) v
        ])
        (λ _ v'. Answered (occurs pat whole) v')
unfolding occurs
after_round env pat whole fuel matched b v ih f h same k =
    subst (λ (c : Bool). Ends (answer true v) (λ _ v'. Answered c v'))
      (sym (starts_occurs pat whole f)) (answer-Answered true v h)
after_round env pat whole fuel ended b v ih f h same k =
    subst (λ (c : Bool). Ends (answer false v) (λ _ v'. Answered c v'))
      (sym (short_occurs pat whole f)) (answer-Answered false v h)
after_round env pat whole fuel mismatch b v ih (other, (a, b', xs, buffered, all, y)) h same k =
    let shorter : length (b' ++ xs) < fuel = omega (arith, k, ap length all) in
    let here : occurs pat whole ≡ occurs pat (b' ++ xs) =
      ap (occurs pat) all
      ∙ if_false _ _ _ (subst (λ (l : List ℕ). starts_with pat l ≡ false) all other) in
    subst (λ (c : Bool). Ends (match_loop fuel env (slide b) v) (λ _ v'. Answered c v')) (sym here)
      (subst
        (λ (l : List ℕ).
          Ends (match_loop fuel env l v) (λ _ v'. Answered (occurs pat (b' ++ xs)) v'))
        (sym (ap slide buffered)) (ih b' xs v y h same shorter))

match_loop_lem : (fuel : ℕ) (env : Env) (pat : List ℕ) → Searches env pat fuel
unfolding match_loop
match_loop_lem zero env pat buf xs v y h same k = absurd (omega (arith, k))
match_loop_lem (suc fuel) env pat buf xs v y h same k =
    Ends-bind (match_cells v.si env 0 buf v) _ _ _ (match_cells_lem v.si env 0 buf xs v y)
      (λ r v' (f, (sp, si, size)).
        after_round env pat (buf ++ xs) fuel r.0 r.1 v' (match_loop_lem fuel env pat)
          (subst (λ (l : List ℕ). Finds l (buf ++ xs) r.0 r.1 v') same f) (omega (arith, size, h))
          (ap (λ (c : ℕ → Cell). pattern_of env.layout c 0 v'.si) sp
            ∙ ap (pattern_of env.layout v.sp 0) si
            ∙ same)
          k)

-- Where the message is an update, its path is prepared, and the fuel of loops exceeds the number of
-- ASes that the path yields: ASPMATCH returns and leaves one cell, which says whether the ASes of the
-- stack stand, in their order and next to each other, anywhere in the path, where AS_ANY stands for
-- any AS.
pub vm_exec_aspmatch_lem :
    (env : Env) (access : ℕ) (v v1 : Vm) (xs : List ℕ)
    → Prepared env access v v1 xs
    → length xs < env.rounds
    → Ends
        (vm_exec_aspmatch env access v)
        (λ _ v'. Answered (occurs (pattern_of env.layout v1.sp 0 v1.si) xs) v')
unfolding vm_exec_aspmatch
vm_exec_aspmatch_lem env access v v1 xs p enough =
    let pat = pattern_of env.layout v1.sp 0 v1.si in
    let P = λ (_ : Unit {0}) (v' : Vm). Answered (occurs pat xs) v' in
    subst (λ (o : Exec). Ends o P) (sym (if_true _ _ _ p.update))
      (subst (λ (o : Exec). Ends (o >>= λ _ v. match_loop env.rounds env [] v) P) (sym p.prepared)
        (match_loop_lem env.rounds env pat [] xs v1 p.path p.room refl enough))
