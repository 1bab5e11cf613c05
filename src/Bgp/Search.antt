-- ===== src/Bgp/Search.antt =====
-- `seekbgpattr` as a whole, which answers from the offset table after its scan
-- (src/ubgp/bgp.c).
use ubgpsuite.Base.{
  ℕ, ◌-◌, ◌<◌, ◌≡◌, ◌≢◌, refl, subst, ◌∙◌, sym, ap, Bool, true, false, ◌==◌, if◌then◌else◌, if_true,
  Option, none, some, arith, List,
}
use ubgpsuite.Bgp.State.{
  Msg, noerr, Outcome, Returns, Returns-bind, check_type_flags_r_ok, ret, ◌>>=◌, Heap, type_of,
  bgp_update, offset_not_found,
}
use ubgpsuite.Bgp.Read.{attr_code_index, scan_attrs, seekbgpattr}
use ubgpsuite.Bgp.Create.{is_idle}
use ubgpsuite.Bgp.Update.{attribs_start, nlri_start}
use ubgpsuite.Bgp.Attribs.{Attribs, first_attr}
use ubgpsuite.Bgp.Scan.{
  table_entry, Within, Within-first_attr, Within-weaken, Scanned, scan_attrs_lem,
}

-- The answer from the table.
abbrev look_up : ℕ → Msg → Outcome (Option ℕ)
look_up idx m = if m.offtab idx == offset_not_found then ret none m else ret (some (m.offtab idx)) m

look_up_entry :
    (m : Msg) (idx : ℕ) (r : Option ℕ)
    → m.offtab idx ≡ table_entry r
    → Within 1 offset_not_found r
    → look_up idx m ≡ ret r m
look_up_entry m idx none e within =
    let test : (m.offtab idx == offset_not_found) ≡ true = ground (arith, e) in rw test refl
look_up_entry m idx (some p) e (low, high) =
    let test : (m.offtab idx == offset_not_found) ≡ false = ground (arith, e, high) in
    rw test (ap (λ (q : ℕ). ret (some q) m) e)

-- The first search for a code with a place in the offset table, in an update that is open for
-- reading with no field open and no error so far, and whose attributes are well formed and end below
-- offset 65535: `seekbgpattr` answers the first attribute with that code, or NULL when there is none,
-- and the flags, the place in the field, the packet and the error are as before.
pub seekbgpattr_lem :
    (heap : Heap) (m : Msg) (code : ℕ) (ps : List ℕ)
    → attr_code_index code ≢ 0
    → type_of m ≡ bgp_update
    → m.err ≡ noerr
    → m.flags.rd ≡ true
    → m.flags.wr ≡ false
    → is_idle m.flags ≡ true
    → m.offtab (attr_code_index code - 1) ≡ 0
    → Attribs m.mem (nlri_start m.mem) (attribs_start m.mem) ps
    → nlri_start m.mem < offset_not_found
    → Returns (seekbgpattr heap code m) (λ r m'.
      (r ≡ first_attr m.mem code ps)
      × (m'.err ≡ noerr)
      × (m'.flags ≡ m.flags)
      × (m'.uptr ≡ m.uptr)
      × (m'.uend ≡ m.uend)
      × (m'.mem ≡ m.mem))
unfolding seekbgpattr
seekbgpattr_lem heap m code ps known typed ok rd wr idle unset attrs small =
    let idx = attr_code_index code - 1 in
    let r = first_attr m.mem code ps in
    let Goal : Option ℕ → Msg → Type 0 = λ a m'.
      (a ≡ r)
      × (m'.err ≡ noerr)
      × (m'.flags ≡ m.flags)
      × (m'.uptr ≡ m.uptr)
      × (m'.uend ≡ m.uend)
      × (m'.mem ≡ m.mem) in
    let answer = λ (done : Bool) (m : Msg). if done then look_up idx m else ret none m in
    let rest = λ (m : Msg).
      if m.offtab idx == 0 then (scan_attrs heap m code idx >>= answer) else look_up idx m in
    let run =
      check_type_flags_r_ok bgp_update (λ f. f.rd) (λ _. none) m rest typed rd ok
      ∙ if_true (m.offtab idx == 0) (scan_attrs heap m code idx >>= answer) (look_up idx m)
          (ground (arith, unset)) in
    let within =
      Within-weaken 1 (nlri_start m.mem) offset_not_found r
        (Within-first_attr m.mem (nlri_start m.mem) ps (attribs_start m.mem) code 1 (omega arith)
          attrs)
        (omega arith) in
    subst (λ o. Returns o Goal) (sym run)
      (Returns-bind (scan_attrs heap m code idx) answer
        (λ done m'. (done ≡ true) × Scanned m idx r m') Goal
        (scan_attrs_lem heap m code ps known typed ok rd wr idle unset attrs small)
        λ done m' (all, s).
          rw (all, look_up_entry m' idx r s.entry within)
            (refl, s.same_err ∙ ok, s.same_flags, s.same_place, s.same_end, s.same_mem))
