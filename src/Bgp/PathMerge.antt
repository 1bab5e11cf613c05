-- ===== src/Bgp/PathMerge.antt =====
-- Iterating the real AS path of a message between speakers of which only one has four-byte ASes: the
-- first ASes of AS_PATH, then those of AS4_PATH (src/ubgp/bgp.c).
use ubgpsuite.Base.{
  ℕ, zero, suc, ◌+◌, ◌-◌, ◌%◌, ◌^◌, ◌<◌, ◌≡◌, refl, subst, ◌∙◌, sym, ap, Bool, true, false, ltb,
  ◌==◌, Mem, IsBytes, Option, Bool-cases, arith, List, [], ◌∷◌, ◌++◌, ◌⊎◌, inl, inr,
}
use ubgpsuite.Bgp.State.{Msg, AsPathent, noerr, Outcome, Returns, Returns-map, ret, fault, ◌>>=◌}
use ubgpsuite.Bgp.Path.{
  as_segment_set, ascount_all, read_as, switch_path, enter_segment, path_taken, path_round,
  nextaspath,
}
use ubgpsuite.Bgp.PathStep.{
  entered, path_round_run, path_round_inside, path_round_switch, path_round_end,
}
use ubgpsuite.Bgp.PathWalk.{
  second_call, read_path, run_entries, path_entries, ases_in, IsSegments, Walking, stepped,
  Walking-stepped, Walking-entered, read_path_step, read_path_stop, read_path_same, read_path_enter,
  read_path_all, header_at,
}

enter_segment_ascount :
    (fuel : ℕ) (m : Msg)
    → Returns (enter_segment fuel m) (λ _ m'. m'.path.ascount ≡ m.path.ascount)
      ⊎ (enter_segment fuel m ≡ fault)
unfolding enter_segment
enter_segment_ascount zero m = inr refl
enter_segment_ascount (suc fuel) m = elim (Bool-cases (m.path.segi == m.path.seglen)) [
  | inr e1 ↦ rw e1 (inl refl)
  | inl e1 ↦ elim (Bool-cases (m.path.asptr == m.path.asend)) [
    | inl e2 ↦ rw (e1, e2) (inl refl)
    | inr e2 ↦ elim (Bool-cases (ltb m.path.asend (m.path.asptr + 2))) [
      | inl e3 ↦ rw (e1, e2, e3) (inl refl)
      | inr e3 ↦ rw (e1, e2, e3) (enter_segment_ascount fuel (entered m))
    ]
  ]
]

path_taken_again :
    (a b : Msg → Outcome (Option AsPathent)) (more : Bool) (m : Msg)
    → (m.path.ascount == 0) ≡ false
    → path_taken a more m ≡ path_taken b more m
unfolding path_taken
path_taken_again a b more m left = rw left refl

bind_taken :
    (a b : Msg → Outcome (Option AsPathent)) (c : ℕ) (o : Outcome Bool)
    → (c == 0) ≡ false
    → Returns o (λ _ m'. m'.path.ascount ≡ c) ⊎ (o ≡ fault)
    → (o >>= path_taken a) ≡ (o >>= path_taken b)
bind_taken a b c fault left h = refl
bind_taken a b c (ret more m) left (inl same) =
    path_taken_again a b more m (ap (λ c. c == 0) same ∙ left)
bind_taken a b c (ret more m) left (inr bad) =
    ap (λ o. o >>= path_taken a) bad ∙ sym (ap (λ o. o >>= path_taken b) bad)

-- While ASes are to be taken from AS_PATH, the function does not call itself.
path_round_again :
    (a b : Msg → Outcome (Option AsPathent)) (m : Msg)
    → m.err ≡ noerr
    → m.flags.aspath ≡ true
    → (m.path.ascount == 0) ≡ false
    → path_round a m ≡ path_round b m
path_round_again a b m ok open_ left =
    let fuel = suc (suc (m.path.asend - m.path.asptr)) in
    path_round_run a m _ ok open_ refl
    ∙ bind_taken a b m.path.ascount (enter_segment fuel m) left (enter_segment_ascount fuel m)
    ∙ sym (path_round_run b m _ ok open_ refl)

-- The first `c` entries, and after them those that follow a segment with a number.
abbrev pub merged : ℕ → List AsPathent → (ℕ → List AsPathent) → List AsPathent
merged c [] later = []
merged zero (e ∷ es) later = later e.segno
merged (suc c) (e ∷ es) later = e ∷ merged c es later

-- No segment is a set.
abbrev pub NoSets : Mem → List ℕ → Type 0
NoSets m [] = Unit
NoSets m (p ∷ ps) = ((m p == as_segment_set) ≡ false) × NoSets m ps

-- The answers are the first `c` ASes of those left in AS_PATH, and then those of AS4_PATH.
abbrev pub MergedRead : Msg → ℕ → ℕ → List ℕ → List ℕ → List AsPathent → Msg → Type 0
MergedRead m c n ps ps4 r m' =
    let asp = m.path.asp in
    (r
      ≡ merged c
          (run_entries m.mem asp.as_size asp.type asp.segno n m.path.asptr
            ++ path_entries m.mem asp.as_size asp.segno ps)
          (λ segno. path_entries m.mem 4 segno ps4))
    × (m'.path.asptr ≡ m'.path.asend)
    × (m'.err ≡ noerr)

Entered-MergedRead :
    (m : Msg) (c p : ℕ) (ps ps4 : List ℕ) (r : List AsPathent) (m' : Msg)
    → p ≡ m.path.asptr
    → MergedRead (entered m) c (m.mem (p + 1)) ps ps4 r m'
    → MergedRead m c 0 (p ∷ ps) ps4 r m'
Entered-MergedRead m c p ps ps4 r m' at_ptr (all, at_end, ok) =
    let next = (m.path.asp.segno + 1) % 2 ^ 32 in
    let size = m.path.asp.as_size in
    let same =
      subst
        (λ q.
          r
          ≡ merged c
              (run_entries m.mem size (m.mem q) next (m.mem (p + 1)) (q + 2)
                ++ path_entries m.mem size next ps)
              (λ segno. path_entries m.mem 4 segno ps4))
        (sym at_ptr) all in
    (same, at_end, ok)

-- At the switch, the ASes of AS4_PATH are the answers.
read_path_switch :
    (fuel n : ℕ) (ps ps4 : List ℕ) (m : Msg)
    → IsBytes m.mem
    → Walking m (suc n) ps
    → IsSegments m.mem 4 m.path.as4end m.path.as4ptr ps4
    → m.path.ascount ≡ 0
    → ases_in m.mem ps4 < ascount_all
    → ases_in m.mem ps4 < suc fuel
    → Returns (read_path (suc fuel) m) (MergedRead m 0 (suc n) ps ps4)
unfolding nextaspath
read_path_switch fuel n ps ps4 m bytes w segments empty few enough =
    let switched = switch_path m (read_as m) in
    let inside : (m.path.segi == m.path.seglen) ≡ false = ground (arith, w.in_segment) in
    let same =
      path_round_switch second_call m w.no_error w.open_ inside (ap (λ c. c == 0) empty)
      ∙ path_round_again (λ _. fault) second_call switched w.no_error w.open_ refl in
    let at_first : Walking switched 0 ps4 = record {
      no_error = w.no_error;
      open_ = w.open_;
      in_segment = refl;
      one_byte = omega arith;
      segments = subst (λ p. IsSegments m.mem 4 m.path.as4end p ps4) (omega arith) segments;
    } in
    subst (λ o. Returns o (MergedRead m 0 (suc n) ps ps4))
      (sym (read_path_same fuel m switched same))
      (read_path_all (suc fuel) ps4 0 switched bytes at_first (omega (arith, few)) (omega arith)
        (omega (arith, enough)))

-- What the merge needs of the message.
pub record Merging (m : Msg) (ps4 : List ℕ) : Type 0 where
  pub bytes : IsBytes m.mem
  pub segments4 : IsSegments m.mem 4 m.path.as4end m.path.as4ptr ps4
  pub few : ases_in m.mem ps4 < ascount_all

pub read_path_merge :
    (fuel : ℕ) (ps : List ℕ) (n c : ℕ) (m : Msg) (ps4 : List ℕ)
    → Merging m ps4
    → Walking m n ps
    → (0 < n → (m.path.asp.type == as_segment_set) ≡ false)
    → NoSets m.mem ps
    → m.path.ascount ≡ c
    → c < 2 ^ 16
    → n + ases_in m.mem ps + ases_in m.mem ps4 < fuel
    → Returns (read_path fuel m) (MergedRead m c n ps ps4)
unfolding nextaspath
read_path_merge zero ps n c m ps4 g w plain plains count small enough = absurd (omega arith)
read_path_merge (suc fuel) ps (suc n) zero m ps4 g w plain plains count small enough =
    read_path_switch fuel n ps ps4 m g.bytes w g.segments4 count g.few (omega (arith, enough))
read_path_merge (suc fuel) ps (suc n) (suc c) m ps4 g w plain plains count small enough =
    let inside : (m.path.segi == m.path.seglen) ≡ false = ground (arith, w.in_segment) in
    let left : (m.path.ascount == 0) ≡ false = ground (arith, count) in
    let sequence = plain (omega arith) in
    let next : (stepped m).path.ascount ≡ c = rw sequence (ground (arith, count, small)) in
    read_path_step fuel m (read_as m).asp (MergedRead (stepped m) c n ps ps4)
      (MergedRead m (suc c) (suc n) ps ps4)
      (path_round_inside second_call m w.no_error w.open_ inside left)
      (read_path_merge fuel ps n c (stepped m) ps4
        (record { bytes = g.bytes; segments4 = g.segments4; few = g.few })
        (Walking-stepped m n ps w) (λ _. sequence) plains next (omega (arith, small))
        (omega (arith, enough)))
      λ r m' (all, at_end, ok). (ap (λ r. (read_as m).asp ∷ r) all, at_end, ok)
read_path_merge (suc fuel) [] zero c m ps4 g w plain plains count small enough =
    let outside : (m.path.segi == m.path.seglen) ≡ true = ground (arith, w.in_segment) in
    let at_end : m.path.asptr ≡ m.path.asend = omega (arith, w.segments) in
    let run = path_round_end second_call m w.no_error w.open_ outside (ground (arith, at_end)) in
    subst (λ o. Returns o (MergedRead m c 0 [] ps4)) (sym (read_path_stop fuel m run))
      (refl, at_end, w.no_error)
read_path_merge (suc fuel) (p ∷ ps) zero c m ps4 g w plain (sequence, plains) count small enough =
    let at_ptr = header_at m p ps w in
    let rest =
      read_path_merge (suc fuel) ps (m.mem (p + 1)) c (entered m) ps4
        (record { bytes = g.bytes; segments4 = g.segments4; few = g.few })
        (Walking-entered m p ps g.bytes w)
        (λ _. subst (λ q. (m.mem q == as_segment_set) ≡ false) at_ptr sequence) plains count small
        (omega (arith, enough)) in
    subst (λ o. Returns o (MergedRead m c 0 (p ∷ ps) ps4)) (sym (read_path_enter fuel m p ps w))
      (Returns-map (read_path (suc fuel) (entered m))
        (MergedRead (entered m) c (m.mem (p + 1)) ps ps4) (MergedRead m c 0 (p ∷ ps) ps4) rest
        λ r m'. Entered-MergedRead m c p ps ps4 r m' at_ptr)
