-- ===== src/Filter/Returns.antt =====
-- Runs that return, and the AS path that such a run reads with `nextaspath`
-- (src/ubgp/filterintrin.c, src/ubgp/bgp.c).
use ubgpsuite.Base.{
  ℕ, zero, suc, ◌+◌, ◌<◌, ◌≡◌, refl, Bool, true, false, ◌||◌, ltb, ◌==◌, if◌then◌else◌, subst, sym,
  if_true, Option, none, some, arith, List, [], ◌∷◌,
}
use ubgpsuite.Bgp.State.{Msg, AsPathent, Outcome, ret}
use ubgpsuite.Bgp.Path.{nextaspath}
use ubgpsuite.Filter.State.{
  Vm, Run, done, aborted, wild, crashed, stuck, unfinished, Exec, ◌>>=◌, Env, Cell, value_cell,
  as_any, as_of, on_bgp, put_cell, truth, Layout,
}
use ubgpsuite.Filter.Access.{is_update, vm_prepare_as_access}
use ubgpsuite.Filter.Paths.{answer}

-- The run returns, with an answer and a state that have the property.
abbrev pub Ends {ℓ} : {A : Type ℓ} → Run A → (A → Vm → Type 0) → Type 0
Ends (done a v) P = P a v
Ends (aborted v) P = ⊥
Ends wild P = ⊥
Ends crashed P = ⊥
Ends stuck P = ⊥
Ends unfinished P = ⊥

pub Ends-bind {ℓ κ} :
    {A : Type ℓ} {B : Type κ} (o : Run A) (f : A → Vm → Run B) (P : A → Vm → Type 0)
    → (Q : B → Vm → Type 0) → Ends o P
    → ((a : A) (v : Vm) → P a v → Ends (f a v) Q)
    → Ends (o >>= f) Q
Ends-bind (done a v) f P Q h k = k a v h
Ends-bind (aborted v) f P Q h k = absurd h
Ends-bind wild f P Q h k = absurd h
Ends-bind crashed f P Q h k = absurd h
Ends-bind stuck f P Q h k = absurd h
Ends-bind unfinished f P Q h k = absurd h

-- `nextaspath` yields the ASes of a list, and then NULL, also when it is asked again.
abbrev pub Yields : List ℕ → Msg → Type 0
Yields [] m = (e : Msg) × (e' : Msg) × (nextaspath m ≡ ret none e) × (nextaspath e ≡ ret none e')
Yields (x ∷ xs) m =
    (ent : AsPathent) × (m' : Msg) × (nextaspath m ≡ ret (some ent) m')
    × (ent.as_number ≡ x)
    × Yields xs m'

-- The ASes of `left` cells from `i` on.
abbrev pub pattern_of : Layout → (ℕ → Cell) → ℕ → ℕ → List ℕ
pattern_of lay sp i zero = []
pattern_of lay sp i (suc left) = as_of lay (sp i) ∷ pattern_of lay sp (i + 1) left

-- An AS of a pattern stands for an AS of the path.
abbrev pub fits : ℕ → ℕ → Bool
fits p a = p == a || p == as_any

-- The path begins with the pattern; and it is as long, too.
unfoldable pub starts_with : List ℕ → List ℕ → Bool
starts_with [] l = true
starts_with (p ∷ ps) [] = false
starts_with (p ∷ ps) (a ∷ l) = let rest = starts_with ps l in if fits p a then rest else false

unfoldable pub matches_all : List ℕ → List ℕ → Bool
matches_all [] [] = true
matches_all [] (a ∷ l) = false
matches_all (p ∷ ps) [] = false
matches_all (p ∷ ps) (a ∷ l) = let rest = matches_all ps l in if fits p a then rest else false

-- The result of an instruction is the only cell of the stack.
abbrev pub Answered : Bool → Vm → Type 0
Answered b v' = (v'.si ≡ 1) × ((c : Cell) × (v'.sp 0 ≡ value_cell (truth b) c))

pub answer-Answered :
    (b : Bool) (v : Vm) → 0 < v.stacksiz → Ends (answer b v) (λ _ v'. Answered b v')
unfolding put_cell
answer-Answered b v h =
    let v' : Vm = record v {
      sp = λ i. if i == 0 then value_cell (truth b) (v.sp 0) else v.sp i;
      si = 1;
    } in
    subst (λ (o : Exec). Ends o (λ _ v'. Answered b v'))
      (sym (if_true (ltb 0 v.stacksiz) (done tt v') wild (ground (arith, h))))
      (refl, (v.sp 0, refl))

-- What the loops leave alone.
abbrev pub Kept : Vm → Vm → Type 0
Kept v v' = (v'.sp ≡ v.sp) × (v'.si ≡ v.si) × (v'.stacksiz ≡ v.stacksiz)

pub next_run {ℓ} :
    {B : Type ℓ} (v : Vm) (r : Option AsPathent) (m : Msg) (f : Option AsPathent → Vm → Run B)
    → (P : B → Vm → Type 0) → nextaspath v.bgp ≡ ret r m
    → Ends (f r (record v { bgp = m })) P
    → Ends (on_bgp nextaspath v >>= f) P
next_run v r m f P run h =
    subst (λ (o : Outcome (Option AsPathent)). Ends (on_bgp (λ _. o) v >>= f) P) (sym run) h

pub Ends-if {ℓ} :
    {A : Type ℓ} (b : Bool) (o r : Run A) (P : A → Vm → Type 0)
    → (b ≡ true → Ends o P)
    → (b ≡ false → Ends r P)
    → Ends (if b then o else r) P
Ends-if true o r P h k = h refl
Ends-if false o r P h k = k refl

pub Ends-map {ℓ} :
    {A : Type ℓ} (o : Run A) (P Q : A → Vm → Type 0)
    → Ends o P
    → ((a : A) (v : Vm) → P a v → Q a v)
    → Ends o Q
Ends-map (done a v) P Q h k = k a v h
Ends-map (aborted v) P Q h k = absurd h
Ends-map wild P Q h k = absurd h
Ends-map crashed P Q h k = absurd h
Ends-map stuck P Q h k = absurd h
Ends-map unfinished P Q h k = absurd h

-- An instruction on the AS path starts: the message is an update, its path is prepared as the
-- accessor says, and `nextaspath` yields a list of ASes from there.
pub record Prepared (env : Env) (access : ℕ) (v v1 : Vm) (xs : List ℕ) : Type 0 where
  pub update : is_update v.bgp ≡ true
  pub prepared : vm_prepare_as_access env access v ≡ done tt v1
  pub path : Yields xs v1.bgp
  pub room : 0 < v1.stacksiz
