-- ===== src/Bgp/Attribs.antt =====
-- Iterating the attributes of an update: `nextbgpattrib`, and the search for a code over it
-- (src/ubgp/bgp.c).
use ubgpsuite.Base.{
  ℕ, ◌+◌, ◌-◌, ◌≤◌, ◌<◌, ◌≡◌, refl, subst, ◌∙◌, sym, true, false, ltb, leb, ◌==◌, ◌&&◌,
  if◌then◌else◌, Mem, get16, Option, none, some, arith, List, [], ◌∷◌, ◌⊎◌, inl, inr, Bool-cases,
  ltb→lt, ltb→ge,
}
use ubgpsuite.Attr.Header.{getattrlen, getattrdata, is_extended, attr_code}
use ubgpsuite.Bgp.State.{Msg, noerr, ebadattr, Returns, Returns-map, check_flags_r_ok, ret}
use ubgpsuite.Bgp.Read.{attr_code_index, set_offtab, note_attr, read_attrib, nextbgpattrib}

-- Where the attribute after the one at `p` begins.
abbrev pub attr_end : Mem → ℕ → ℕ
attr_end m p = getattrdata m p + getattrlen m p

-- The bytes from `ptr` to `end` are attributes, which begin at the offsets of the list. The table of
-- codes has no entry for 255.
pub data Attribs (m : Mem) (end : ℕ) : ℕ → List ℕ → Type 0 where
  no_more : Attribs m end end []
  attr :
      {ptr : ℕ} {attrs : List ℕ}
      → attr_code m ptr < 255
      → Attribs m end (attr_end m ptr) attrs
      → Attribs m end ptr (ptr ∷ attrs)

-- The first attribute with a code, as a search in the list.
abbrev pub first_attr : Mem → ℕ → List ℕ → Option ℕ
first_attr m code [] = none
first_attr m code (p ∷ ps) = if attr_code m p == code then some p else first_attr m code ps

pub Attribs-le : {m : Mem} {end ptr : ℕ} {ps : List ℕ} → Attribs m end ptr ps → ptr ≤ end
Attribs-le no_more = omega arith
Attribs-le (attr small rest) = let h = Attribs-le rest in ground arith

-- The message after `nextbgpattrib` has passed the attribute at `p`.
unfoldable pub passed : Msg → ℕ → Msg
passed m p =
    let idx = attr_code_index (attr_code m.mem p) in
    let m' = record m { uptr = attr_end m.mem p } in
    if idx == 0 then m' else set_offtab m' (idx - 1) p

note_attr_run :
    (m : Msg)
    → attr_code m.mem m.uptr < 255
    → note_attr (record m { uptr = attr_end m.mem m.uptr }) m.uptr
      ≡ ret (some m.uptr) (passed m m.uptr)
unfolding note_attr passed
note_attr_run m small =
    let entry : leb 255 (attr_code m.mem m.uptr) ≡ false = ground (arith, small) in
    elim (Bool-cases (attr_code_index (attr_code m.mem m.uptr) == 0)) [
      | inl e ↦ rw (entry, e) refl
      | inr e ↦ rw (entry, e) refl
    ]

read_attrib_run :
    (m : Msg)
    → attr_end m.mem m.uptr ≤ m.uend
    → attr_code m.mem m.uptr < 255
    → read_attrib m ≡ ret (some m.uptr) (passed m m.uptr)
unfolding read_attrib
read_attrib_run m fits small =
    let e1 : (m.uptr == m.uend) ≡ false = ground (arith, fits) in
    let e2 : ltb m.uend (m.uptr + 3) ≡ false = ground (arith, fits) in
    let note = note_attr_run m small in
    elim (Bool-cases (is_extended (m.mem m.uptr))) [
      | inl e ↦
          let e3 : ltb m.uend (m.uptr + 4) ≡ false = ground (arith, fits, e) in
          let e4 : ltb m.uend (m.uptr + 4 + get16 m.mem (m.uptr + 2)) ≡ false =
            ground (arith, fits, e) in
          rw (e, e1, e2, e3, e4) (rw e at note)
      | inr e ↦
          let e4 : ltb m.uend (m.uptr + 3 + m.mem (m.uptr + 2)) ≡ false = ground (arith, fits, e) in
          rw (e, e1, e2, e4) (rw e at note)
    ]

pub nextbgpattrib_run :
    (m : Msg)
    → m.err ≡ noerr
    → m.flags.rd ≡ true
    → m.flags.pattr ≡ true
    → attr_end m.mem m.uptr ≤ m.uend
    → attr_code m.mem m.uptr < 255
    → nextbgpattrib m ≡ ret (some m.uptr) (passed m m.uptr)
unfolding nextbgpattrib
nextbgpattrib_run m ok rd open_ fits small =
    check_flags_r_ok (λ f. f.rd && f.pattr) (λ _. none) m read_attrib (rw (rd, open_) refl) ok
    ∙ read_attrib_run m fits small

-- Passing an attribute keeps all but the place in the field and the offset table.
pub record Kept (m m' : Msg) : Type 0 where
  pub same_mem : m'.mem ≡ m.mem
  pub same_flags : m'.flags ≡ m.flags
  pub same_err : m'.err ≡ m.err
  pub same_end : m'.uend ≡ m.uend

passed_cases : (m : Msg) (p : ℕ) → Kept m (passed m p) × ((passed m p).uptr ≡ attr_end m.mem p)
unfolding passed
passed_cases m p = elim (Bool-cases (attr_code_index (attr_code m.mem p) == 0)) [
  | inl e ↦
      rw e (record { same_mem = refl; same_flags = refl; same_err = refl; same_end = refl }, refl)
  | inr e ↦
      rw e (record { same_mem = refl; same_flags = refl; same_err = refl; same_end = refl }, refl)
]

pub passed-Kept : (m : Msg) (p : ℕ) → Kept m (passed m p)
passed-Kept m p = (passed_cases m p).0

pub passed_uptr : (m : Msg) (p : ℕ) → (passed m p).uptr ≡ attr_end m.mem p
passed_uptr m p = (passed_cases m p).1

pub nextbgpattrib_end :
    (m : Msg)
    → m.err ≡ noerr
    → m.flags.rd ≡ true
    → m.flags.pattr ≡ true
    → m.uptr ≡ m.uend
    → nextbgpattrib m ≡ ret none m
unfolding nextbgpattrib read_attrib
nextbgpattrib_end m ok rd open_ end =
    let e : (m.uptr == m.uend) ≡ true = ground (arith, end) in
    check_flags_r_ok (λ f. f.rd && f.pattr) (λ _. none) m read_attrib (rw (rd, open_) refl) ok
    ∙ rw e refl

-- The answer of an attribute that overruns the field.
abbrev Overrun : Option ℕ → Msg → Type 0
Overrun r m' = (r ≡ none) × (m'.err ≡ ebadattr)

read_attrib_bad :
    (m : Msg)
    → (m.uptr == m.uend) ≡ false
    → m.uend < attr_end m.mem m.uptr
    → Returns (read_attrib m) Overrun
unfolding read_attrib
read_attrib_bad m e1 over = elim (Bool-cases (ltb m.uend (m.uptr + 3))) [
  | inl e2 ↦ rw (e1, e2) (refl, refl)
  | inr e2 ↦ elim (Bool-cases (is_extended (m.mem m.uptr))) [
    | inl e ↦ elim (Bool-cases (ltb m.uend (m.uptr + 4))) [
      | inl e3 ↦ rw (e1, e2, e, e3) (refl, refl)
      | inr e3 ↦
          let e4 : ltb m.uend (m.uptr + 4 + get16 m.mem (m.uptr + 2)) ≡ true =
            ground (arith, over, e) in
          rw (e1, e2, e, e3, e4) (refl, refl)
    ]
    | inr e ↦
        let e4 : ltb m.uend (m.uptr + 3 + m.mem (m.uptr + 2)) ≡ true = ground (arith, over, e) in
        rw (e1, e2, e, e4) (refl, refl)
  ]
]

nextbgpattrib_bad :
    (m : Msg)
    → m.err ≡ noerr
    → m.flags.rd ≡ true
    → m.flags.pattr ≡ true
    → (m.uptr == m.uend) ≡ false
    → m.uend < attr_end m.mem m.uptr
    → Returns (nextbgpattrib m) Overrun
unfolding nextbgpattrib
nextbgpattrib_bad m ok rd open_ e1 over =
    subst (λ o. Returns o Overrun)
      (sym (
        check_flags_r_ok (λ f. f.rd && f.pattr) (λ _. none) m read_attrib (rw (rd, open_) refl) ok))
      (read_attrib_bad m e1 over)

-- At an attribute with a code below 255, in a message with its attributes entered for reading and
-- no error so far, `nextbgpattrib` ends at the end of the field, has BGP_EBADATTR when the
-- attribute overruns it, and otherwise returns the attribute and moves past it.
nextbgpattrib_lem :
    (m : Msg)
    → m.err ≡ noerr
    → m.flags.rd ≡ true
    → m.flags.pattr ≡ true
    → attr_code m.mem m.uptr < 255
    → Returns (nextbgpattrib m) (λ r m'.
      ((m.uptr ≡ m.uend) × (r ≡ none) × (m'.err ≡ noerr) × (m'.uptr ≡ m.uptr))
      ⊎ ((m.uend < attr_end m.mem m.uptr) × (r ≡ none) × (m'.err ≡ ebadattr))
      ⊎ ((attr_end m.mem m.uptr ≤ m.uend)
          × (r ≡ some m.uptr)
          × (m'.err ≡ noerr)
          × (m'.uptr ≡ attr_end m.mem m.uptr)))
nextbgpattrib_lem m ok rd open_ small = elim (Bool-cases (m.uptr == m.uend)) [
  | inl e ↦
      let end : m.uptr ≡ m.uend = ground (arith, e) in
      rw (nextbgpattrib_end m ok rd open_ end) (inl (end, refl, ok, refl))
  | inr e ↦ elim (Bool-cases (ltb m.uend (attr_end m.mem m.uptr))) [
    | inl over ↦
        let lt = ltb→lt m.uend (attr_end m.mem m.uptr) over in
        Returns-map (nextbgpattrib m) Overrun _ (nextbgpattrib_bad m ok rd open_ e lt)
          λ r m' (null, bad). inr (inl (lt, null, bad))
    | inr fits ↦
        let le : attr_end m.mem m.uptr ≤ m.uend = ltb→ge m.uend (attr_end m.mem m.uptr) fits in
        rw (nextbgpattrib_run m ok rd open_ le small)
          (inr (inr (le, refl, (passed-Kept m m.uptr).same_err ∙ ok, passed_uptr m m.uptr)))
  ]
]
