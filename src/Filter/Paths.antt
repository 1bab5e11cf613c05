-- ===== src/Filter/Paths.antt =====
-- The instructions of the filter machine on AS paths and communities (src/ubgp/filterintrin.c).
use ubgpsuite.Base.{
  ℕ, zero, suc, ◌+◌, Bool, true, false, not, ◌||◌, ◌==◌, if◌then◌else◌, none, some, List, [], ◌∷◌,
  ◌++◌,
}
use ubgpsuite.Attr.Header.{community_code}
use ubgpsuite.Bgp.Fields.{endcommunities}
use ubgpsuite.Bgp.Path.{nextaspath}
use ubgpsuite.Bgp.Communities.{
  community, excommunity, largecommunity, startcommunities, nextcommunity,
}
use ubgpsuite.Filter.State.{
  value_cell, as_any, as_of, comm_of, Vm, Run, done, crashed, stuck, Exec, ◌>>=◌, Env, on_bgp,
  put_cell, vm_clearstack, truth,
}
use ubgpsuite.Filter.Access.{on_update, vm_prepare_as_access}

-- Cell `i` holds the AS or `AS_ANY`.
abbrev pub as_fits : Env → Vm → ℕ → ℕ → Bool
as_fits env vm i asn = let cell = as_of env.layout (vm.sp i) in cell == asn || cell == as_any

-- `vm_clearstack(vm); vm->sp[vm->si++].value = value`.
abbrev pub answer : Bool → Vm → Exec
answer b vm = put_cell (value_cell (truth b)) (vm_clearstack vm)

abbrev pub length : List ℕ → ℕ
length [] = 0
length (a ∷ l) = suc (length l)

-- The loop of `vm_exec_aspstarts` from cell `i` on, of `left` cells: whether it went to the end.
unfoldable pub starts_loop : ℕ → Env → ℕ → Vm → Run Bool
starts_loop zero env i vm = done true vm
starts_loop (suc left) env i vm = on_bgp nextaspath vm >>= λ r vm. elim r [
  | none ↦ done false vm
  | some ent ↦
      if as_fits env vm i ent.as_number then starts_loop left env (i + 1) vm else done false vm
]

unfoldable pub vm_exec_aspstarts : Env → ℕ → Vm → Exec
vm_exec_aspstarts env access vm = on_update vm λ vm. vm_prepare_as_access env access vm >>= λ _ vm.
    starts_loop vm.si env 0 vm >>= λ value vm. answer value vm

-- The AS path is asked for one more AS, also after a mismatch.
abbrev pub exact_run : Env → Vm → Exec
exact_run env vm = starts_loop vm.si env 0 vm >>= λ all vm.
    on_bgp nextaspath vm >>= λ r vm. elim r [ none ↦ answer all vm | some ent ↦ answer false vm ]

unfoldable pub vm_exec_aspexact : Env → ℕ → Vm → Exec
vm_exec_aspexact env access vm =
    on_update vm λ vm. vm_prepare_as_access env access vm >>= λ _ vm. exact_run env vm

-- What one round of `vm_exec_aspmatch` finds.
pub data Match : Type 0 where
  matched mismatch ended : Match

-- One round from cell `i` on, of `left` cells. `ahead` is `asbuf` from `i` up to `buffered`; the
-- answer has what it is afterwards.
unfoldable pub match_cells : ℕ → Env → ℕ → List ℕ → Vm → Run (Match × List ℕ)
match_cells zero env i ahead vm = done (matched, ahead) vm
match_cells (suc left) env i [] vm = on_bgp nextaspath vm >>= λ r vm. elim r [
  | none ↦ done (ended, []) vm
  | some ent ↦
      let a = ent.as_number in
      if as_fits env vm i a
      then (match_cells left env (i + 1) [] vm >>= λ r vm. done (r.0, a ∷ r.1) vm)
      else done (mismatch, a ∷ []) vm
]
match_cells (suc left) env i (a ∷ ahead) vm =
    if as_fits env vm i a
    then (match_cells left env (i + 1) ahead vm >>= λ r vm. done (r.0, a ∷ r.1) vm)
    else done (mismatch, a ∷ ahead) vm

-- `memmove(asbuf, asbuf + 1, …)`.
abbrev pub slide : List ℕ → List ℕ
slide [] = []
slide (a ∷ l) = l

unfoldable pub match_loop : ℕ → Env → List ℕ → Vm → Exec
match_loop zero env buf vm = stuck
match_loop (suc fuel) env buf vm = match_cells vm.si env 0 buf vm >>= λ r vm. elim r.0 [
  | matched ↦ answer true vm
  | ended ↦ answer false vm
  | mismatch ↦ match_loop fuel env (slide r.1) vm
]

unfoldable pub vm_exec_aspmatch : Env → ℕ → Vm → Exec
vm_exec_aspmatch env access vm =
    on_update vm
      λ vm. vm_prepare_as_access env access vm >>= λ _ vm. match_loop env.rounds env [] vm

-- The last ASes of the path, as many as the stack has cells. Where it has none, the size of the
-- `memmove` is negative and the AS is stored before the buffer.
unfoldable pub window_loop : ℕ → List ℕ → Vm → Run (List ℕ)
window_loop zero buf vm = stuck
window_loop (suc fuel) buf vm = on_bgp nextaspath vm >>= λ r vm. elim r [
  | none ↦ done buf vm
  | some ent ↦
      if vm.si == 0
      then crashed
      else let room = if length buf == vm.si then slide buf else buf in
        window_loop fuel (room ++ (ent.as_number ∷ [])) vm
]

unfoldable pub fits_all : Env → Vm → ℕ → List ℕ → Bool
fits_all env vm i [] = true
fits_all env vm i (a ∷ l) =
    let rest = fits_all env vm (i + 1) l in if as_fits env vm i a then rest else false

-- The cells are read after the stack has been cleared.
unfoldable pub vm_exec_aspends : Env → ℕ → Vm → Exec
vm_exec_aspends env access vm = on_update vm λ vm. vm_prepare_as_access env access vm >>= λ _ vm.
    window_loop env.rounds [] vm >>= λ buf vm.
    if length buf == vm.si then answer (fits_all env vm 0 buf) vm else answer false vm

-- `seen`, one mark for each cell from `i` on: only the first cell with the community is marked. The
-- number is how many more are marked now.
unfoldable pub mark_seen : Env → Vm → ℕ → ℕ → List Bool → List Bool × ℕ
mark_seen env vm comm i [] = ([], 0)
mark_seen env vm comm i (s ∷ seen) =
    let rest = mark_seen env vm comm (i + 1) seen in
    if comm == comm_of env.layout (vm.sp i)
    then (true ∷ seen, truth (not s))
    else (s ∷ rest.0, rest.1)

-- The loop of `vm_exec_commexact`. `startcommunities` has chosen the plain communities, so that
-- `nextcommunity` answers no other.
unfoldable pub seen_loop : ℕ → Env → List Bool → ℕ → Vm → Run ℕ
seen_loop zero env seen count vm = stuck
seen_loop (suc fuel) env seen count vm = on_bgp nextcommunity vm >>= λ r vm. elim r [
  | none ↦ done count vm
  | some c ↦ if count == vm.si then done count vm else elim c [
    | community n ↦
        let marked = mark_seen env vm n 0 seen in seen_loop fuel env marked.0 (count + marked.1) vm
    | excommunity b ↦ crashed
    | largecommunity g h l ↦ crashed
  ]
]

abbrev pub unseen : ℕ → List Bool
unseen zero = []
unseen (suc n) = false ∷ unseen n

unfoldable pub vm_exec_commexact : Env → Vm → Exec
vm_exec_commexact env vm = on_update vm λ vm.
    on_bgp (λ m. startcommunities env.heap m community_code) vm >>= λ _ vm.
    seen_loop env.rounds env (unseen vm.si) 0 vm >>= λ count vm.
    on_bgp endcommunities vm >>= λ _ vm. answer (count == vm.si) vm
