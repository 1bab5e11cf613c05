-- ===== src/Bgp/PathWalk.antt =====
-- Iterating an AS path with `nextaspath` until it answers NULL: the entries that the attribute
-- holds (src/ubgp/bgp.c).
use ubgpsuite.Base.{
  ℕ, zero, suc, ◌+◌, ◌*◌, ◌%◌, ◌^◌, ◌≤◌, ◌<◌, ◌≡◌, refl, subst, ◌∙◌, sym, ap, true, false, ◌==◌,
  if◌then◌else◌, Mem, IsBytes, get16, get32, Option, none, some, arith, List, [], ◌∷◌, ◌++◌,
}
use ubgpsuite.Bgp.State.{
  Msg, AsPathent, noerr, Outcome, Returns, Returns-bind, Returns-map, ret, fault, ◌>>=◌,
}
use ubgpsuite.Bgp.Path.{set_path, read_as, take_as, path_round, nextaspath}
use ubgpsuite.Bgp.PathStep.{entered, path_round_inside, path_round_end, path_round_enter}

-- The call of `nextaspath` by itself.
abbrev pub second_call : Msg → Outcome (Option AsPathent)
second_call = path_round (λ _. fault)

-- `nextaspath` until it answers NULL, at most `n` times.
unfoldable pub read_path : ℕ → Msg → Outcome (List AsPathent)
read_path zero m = fault
read_path (suc n) m = nextaspath m >>= λ r m. elim r [
  | none ↦ ret [] m
  | some as_ ↦ read_path n m >>= λ rest m. ret (as_ ∷ rest) m
]

-- The entries of `n` ASes of `size` bytes from `p` on, and those of the segments with the headers in
-- a list, of which the one before has the number `segno`.
abbrev pub run_entries : Mem → ℕ → ℕ → ℕ → ℕ → ℕ → List AsPathent
run_entries m size type segno zero p = []
run_entries m size type segno (suc n) p =
    (record {
      as_size = size;
      type = type;
      segno = segno;
      as_number = if size == 2 then get16 m p else get32 m p;
    })
    ∷ run_entries m size type segno n (p + size)

abbrev pub path_entries : Mem → ℕ → ℕ → List ℕ → List AsPathent
path_entries m size segno [] = []
path_entries m size segno (p ∷ ps) =
    let next = (segno + 1) % 2 ^ 32 in
    run_entries m size (m p) next (m (p + 1)) (p + 2) ++ path_entries m size next ps

abbrev pub ases_in : Mem → List ℕ → ℕ
ases_in m [] = 0
ases_in m (p ∷ ps) = m (p + 1) + ases_in m ps

-- The bytes from `ptr` to `end` are segments with ASes of `size` bytes, whose headers are at the
-- offsets of the list.
abbrev pub IsSegments : Mem → ℕ → ℕ → ℕ → List ℕ → Type 0
IsSegments m size end ptr [] = ptr ≡ end
IsSegments m size end ptr (p ∷ ps) = (p ≡ ptr) × IsSegments m size end (p + 2 + m (p + 1) * size) ps

pub IsSegments-le :
    (m : Mem) (size end ptr : ℕ) (ps : List ℕ) → IsSegments m size end ptr ps → ptr ≤ end
IsSegments-le m size end ptr [] h = omega arith
IsSegments-le m size end ptr (p ∷ ps) (e, rest) =
    let h = IsSegments-le m size end (p + 2 + m (p + 1) * size) ps rest in omega arith

-- The iteration is on, with `n` ASes left in the segment and then those of the segments at `ps`.
pub record Walking (m : Msg) (n : ℕ) (ps : List ℕ) : Type 0 where
  pub no_error : m.err ≡ noerr
  pub open_ : m.flags.aspath ≡ true
  pub in_segment : m.path.segi + n ≡ m.path.seglen
  pub one_byte : m.path.seglen < 256
  pub segments :
      IsSegments m.mem m.path.asp.as_size m.path.asend (m.path.asptr + n * m.path.asp.as_size) ps

-- The message after the AS at `asptr`.
abbrev pub stepped : Msg → Msg
stepped m = set_path m (take_as (read_as m))

pub Walking-stepped :
    (m : Msg) (n : ℕ) (ps : List ℕ) → Walking m (suc n) ps → Walking (stepped m) n ps
Walking-stepped m n ps w = record {
  no_error = w.no_error;
  open_ = w.open_;
  in_segment = ground (arith, w.in_segment, w.one_byte);
  one_byte = w.one_byte;
  segments =
      subst (λ p. IsSegments m.mem m.path.asp.as_size m.path.asend p ps) (ground arith) w.segments;
}

pub header_at : (m : Msg) (p : ℕ) (ps : List ℕ) → Walking m 0 (p ∷ ps) → p ≡ m.path.asptr
header_at m p ps w = w.segments.0 ∙ omega arith

pub Walking-entered :
    (m : Msg) (p : ℕ) (ps : List ℕ)
    → IsBytes m.mem
    → Walking m 0 (p ∷ ps)
    → Walking (entered m) (m.mem (p + 1)) ps
Walking-entered m p ps bytes w =
    let at_ptr = header_at m p ps w in
    record {
      no_error = w.no_error;
      open_ = w.open_;
      in_segment = ap (λ p. 0 + m.mem (p + 1)) at_ptr ∙ omega arith;
      one_byte = bytes (m.path.asptr + 1);
      segments =
          subst
            (λ q.
              IsSegments m.mem m.path.asp.as_size m.path.asend
                (q + 2 + m.mem (p + 1) * m.path.asp.as_size) ps)
            at_ptr w.segments.1;
    }

-- The answers are the ASes that are left, and the iteration is at its end.
abbrev pub AllRead : Msg → ℕ → List ℕ → List AsPathent → Msg → Type 0
AllRead m n ps r m' =
    let asp = m.path.asp in
    (r
      ≡ run_entries m.mem asp.as_size asp.type asp.segno n m.path.asptr
        ++ path_entries m.mem asp.as_size asp.segno ps)
    × (m'.path.asptr ≡ m'.path.asend)
    × (m'.err ≡ noerr)

pub read_path_step :
    (fuel : ℕ) (m : Msg) (as_ : AsPathent) (P Q : List AsPathent → Msg → Type 0)
    → nextaspath m ≡ ret (some as_) (stepped m)
    → Returns (read_path fuel (stepped m)) P
    → ((r : List AsPathent) (m' : Msg) → P r m' → Q (as_ ∷ r) m')
    → Returns (read_path (suc fuel) m) Q
unfolding read_path
read_path_step fuel m as_ P Q run rest k =
    rw run (Returns-bind (read_path fuel (stepped m)) (λ rest m. ret (as_ ∷ rest) m) P Q rest k)

pub read_path_stop :
    (fuel : ℕ) (m : Msg) → nextaspath m ≡ ret none m → read_path (suc fuel) m ≡ ret [] m
unfolding read_path
read_path_stop fuel m run = rw run refl

pub read_path_same :
    (fuel : ℕ) (m m' : Msg)
    → nextaspath m ≡ nextaspath m'
    → read_path (suc fuel) m ≡ read_path (suc fuel) m'
unfolding read_path
read_path_same fuel m m' same = rw same refl

pub read_path_enter :
    (fuel : ℕ) (m : Msg) (p : ℕ) (ps : List ℕ)
    → Walking m 0 (p ∷ ps)
    → read_path (suc fuel) m ≡ read_path (suc fuel) (entered m)
unfolding nextaspath
read_path_enter fuel m p ps w =
    let outside : (m.path.segi == m.path.seglen) ≡ true = ground (arith, w.in_segment) in
    let size = m.path.asp.as_size in
    let inside =
      IsSegments-le m.mem size m.path.asend (p + 2 + m.mem (p + 1) * size) ps w.segments.1 in
    let room : m.path.asptr + 2 ≤ m.path.asend = omega (arith, inside, header_at m p ps w) in
    read_path_same fuel m (entered m)
      (path_round_enter second_call m w.no_error w.open_ outside room)

-- Being at the header of a segment with `n` ASes is being at the first of them.
Entered-AllRead :
    (m : Msg) (p : ℕ) (ps : List ℕ) (r : List AsPathent) (m' : Msg)
    → p ≡ m.path.asptr
    → AllRead (entered m) (m.mem (p + 1)) ps r m'
    → AllRead m 0 (p ∷ ps) r m'
Entered-AllRead m p ps r m' at_ptr (all, at_end, ok) =
    let next = (m.path.asp.segno + 1) % 2 ^ 32 in
    let size = m.path.asp.as_size in
    let same =
      subst
        (λ q.
          r
          ≡ run_entries m.mem size (m.mem q) next (m.mem (p + 1)) (q + 2)
            ++ path_entries m.mem size next ps)
        (sym at_ptr) all in
    (same, at_end, ok)

-- With a count that the ASes left do not exhaust, the answers are these ASes.
pub read_path_all :
    (fuel : ℕ) (ps : List ℕ) (n : ℕ) (m : Msg)
    → IsBytes m.mem
    → Walking m n ps
    → n + ases_in m.mem ps < m.path.ascount
    → m.path.ascount < 2 ^ 16
    → n + ases_in m.mem ps < fuel
    → Returns (read_path fuel m) (AllRead m n ps)
unfolding nextaspath
read_path_all zero ps n m bytes w more small enough = absurd (omega arith)
read_path_all (suc fuel) ps (suc n) m bytes w more small enough =
    let inside : (m.path.segi == m.path.seglen) ≡ false = ground (arith, w.in_segment) in
    let left : (m.path.ascount == 0) ≡ false = ground (arith, more) in
    read_path_step fuel m (read_as m).asp (AllRead (stepped m) n ps) (AllRead m (suc n) ps)
      (path_round_inside second_call m w.no_error w.open_ inside left)
      (read_path_all fuel ps n (stepped m) bytes (Walking-stepped m n ps w) (ground (arith, more))
        (ground arith) (omega (arith, enough)))
      λ r m' (all, at_end, ok). (ap (λ r. (read_as m).asp ∷ r) all, at_end, ok)
read_path_all (suc fuel) [] zero m bytes w more small enough =
    let outside : (m.path.segi == m.path.seglen) ≡ true = ground (arith, w.in_segment) in
    let at_end : m.path.asptr ≡ m.path.asend = omega (arith, w.segments) in
    let run = path_round_end second_call m w.no_error w.open_ outside (ground (arith, at_end)) in
    subst (λ o. Returns o (AllRead m 0 [])) (sym (read_path_stop fuel m run))
      (refl, at_end, w.no_error)
read_path_all (suc fuel) (p ∷ ps) zero m bytes w more small enough =
    let rest =
      read_path_all (suc fuel) ps (m.mem (p + 1)) (entered m) bytes (Walking-entered m p ps bytes w)
        (omega (arith, more)) small (omega (arith, enough)) in
    subst (λ o. Returns o (AllRead m 0 (p ∷ ps))) (sym (read_path_enter fuel m p ps w))
      (Returns-map (read_path (suc fuel) (entered m)) (AllRead (entered m) (m.mem (p + 1)) ps)
        (AllRead m 0 (p ∷ ps)) rest λ r m'. Entered-AllRead m p ps r m' (header_at m p ps w))
