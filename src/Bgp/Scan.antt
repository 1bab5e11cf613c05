-- ===== src/Bgp/Scan.antt =====
-- The scan of `seekbgpattr`: entering the attributes, the loop, and the offset table
-- (src/ubgp/bgp.c).
use ubgpsuite.Base.{
  ℕ, suc, ◌+◌, ◌-◌, ◌≤◌, ◌<◌, ◌≡◌, ◌≢◌, refl, ◌∙◌, ap, Bool, true, false, ◌==◌, if◌then◌else◌,
  if_false, Mem, get16, Option, none, some, arith, List, [], ◌∷◌, inl, inr, Bool-cases,
}
use ubgpsuite.Attr.Header.{attr_code}
use ubgpsuite.Bgp.State.{
  Msg, noerr, Returns, Returns-bind, check_flags_r_ok, check_type_r_ok, ret, ◌>>=◌, Heap, is_err,
  type_of, bgp_update, base_packet_length, offset_not_found,
}
use ubgpsuite.Bgp.Fields.{
  endpending, endbgpattribs, clear_pattr, getbgpattribs, need, bgprestore, put_field_len,
}
use ubgpsuite.Bgp.Write.{startbgpattribs, start_field, enter_field}
use ubgpsuite.Bgp.Read.{attr_code_index, seek_loop, scan_attrs, mark_not_found, restore_iter}
use ubgpsuite.Bgp.Create.{is_idle, endpending_idle}
use ubgpsuite.Bgp.Update.{attribs_start, nlri_start, getbgpattribs_run}
use ubgpsuite.Bgp.Attribs.{Attribs, attr, first_attr, Attribs-le, attr_end}
use ubgpsuite.Bgp.Seek.{Answers, entry_after, seek_loop_lem}

-- The message with its attributes entered for reading.
abbrev scanning : Msg → Msg
scanning m =
    let a =
      enter_field m (attribs_start m.mem)
        (get16 m.mem (base_packet_length + 2 + get16 m.mem base_packet_length)) in
    record a { flags = record (m.flags) { pattr = true } }

start_field_reading :
    (heap : Heap) (m : Msg) (ptr n : ℕ) (reading open_field : Msg → Msg)
    → m.flags.wr ≡ false
    → start_field heap m ptr n reading open_field
      ≡ ret noerr (open_field (enter_field (reading m) ptr n))
unfolding start_field
start_field_reading heap m ptr n reading open_field wr = if_false m.flags.wr _ _ wr

startbgpattribs_run :
    (heap : Heap) (m : Msg)
    → type_of m ≡ bgp_update
    → m.err ≡ noerr
    → m.flags.wr ≡ false
    → is_idle m.flags ≡ true
    → startbgpattribs heap m ≡ ret noerr (scanning m)
unfolding startbgpattribs
startbgpattribs_run heap m typed ok wr idle =
    let rest = λ (m : Msg). endpending m >>= λ _ m. getbgpattribs m >>= λ r m. need r λ a.
      start_field heap m a.0 a.1 (λ m. m)
        λ m. record m { flags = record (m.flags) { pattr = true } } in
    check_type_r_ok bgp_update (λ e. e) m rest typed ok
    ∙ rw (endpending_idle m idle, getbgpattribs_run m typed ok)
        (start_field_reading heap m (attribs_start m.mem)
          (get16 m.mem (base_packet_length + 2 + get16 m.mem base_packet_length)) (λ m. m)
          (λ m. record m { flags = record (m.flags) { pattr = true } }) wr)

endbgpattribs_run :
    (m : Msg)
    → m.err ≡ noerr
    → m.flags.wr ≡ false
    → m.flags.pattr ≡ true
    → endbgpattribs m ≡ ret noerr (clear_pattr m)
unfolding endbgpattribs
endbgpattribs_run m ok wr open_ =
    let close = λ (m : Msg).
      if m.flags.wr
      then bgprestore m (λ m. put_field_len m (λ m. ret noerr (clear_pattr m)))
      else ret noerr (clear_pattr m) in
    check_flags_r_ok (λ f. f.pattr) (λ e. e) m close open_ ok
    ∙ if_false m.flags.wr (bgprestore m (λ m. put_field_len m (λ m. ret noerr (clear_pattr m))))
        (ret noerr (clear_pattr m)) wr

-- What the table says of an attribute after the scan.
abbrev pub table_entry : Option ℕ → ℕ
table_entry none = offset_not_found
table_entry (some p) = p

-- The state after the scan: the table is filled in, the rest is as before.
pub record Scanned (m : Msg) (idx : ℕ) (r : Option ℕ) (m' : Msg) : Type 0 where
  pub entry : m'.offtab idx ≡ table_entry r
  pub same_mem : m'.mem ≡ m.mem
  pub same_err : m'.err ≡ m.err
  pub same_flags : m'.flags ≡ m.flags
  pub same_place : m'.uptr ≡ m.uptr
  pub same_end : m'.uend ≡ m.uend

-- The place of an attribute that was found.
abbrev pub Within : ℕ → ℕ → Option ℕ → Type 0
Within low high none = Unit
Within low high (some p) = (low ≤ p) × (p < high)

pub Within-first_attr :
    (m : Mem) (end : ℕ) (ps : List ℕ) (ptr code low : ℕ)
    → low ≤ ptr
    → Attribs m end ptr ps
    → Within low end (first_attr m code ps)
Within-first_attr m end [] ptr code low h attrs = tt
Within-first_attr m end (_ ∷ ps) ptr code low h (attr small rest) =
    let le = Attribs-le rest in
    elim (Bool-cases (attr_code m ptr == code)) [
      | inl e ↦ rw e (h, ground arith)
      | inr e ↦ rw e (Within-first_attr m end ps (attr_end m ptr) code low (ground arith) rest)
    ]

pub Within-weaken :
    (low end high : ℕ) (r : Option ℕ) → Within low end r → end ≤ high → Within low high r
Within-weaken low end high none h le = tt
Within-weaken low end high (some p) (above, below) le = (above, omega arith)

-- Marking what was not found turns the entry that the loop left into what the table says.
settled :
    (back : Msg) (idx : ℕ) (r : Option ℕ)
    → back.offtab idx ≡ entry_after 0 r
    → Within 1 offset_not_found r
    → Scanned back idx r (if back.offtab idx == 0 then mark_not_found back else back)
settled back idx none e within =
    let test : (back.offtab idx == 0) ≡ true = ground (arith, e) in
    rw test (record {
      entry = rw test refl;
      same_mem = refl;
      same_err = refl;
      same_flags = refl;
      same_place = refl;
      same_end = refl;
    })
settled back idx (some p) e (low, high) =
    let test : (back.offtab idx == 0) ≡ false = ground (arith, e, low, high) in
    rw test (record {
      entry = e ∙ ground (arith, high);
      same_mem = refl;
      same_err = refl;
      same_flags = refl;
      same_place = refl;
      same_end = refl;
    })

-- The end of the scan.
after_loop :
    (m scan : Msg) (idx : ℕ) (r : Option ℕ)
    → scan.mem ≡ m.mem
    → scan.err ≡ m.err
    → scan.offtab idx ≡ entry_after 0 r
    → Within 1 offset_not_found r
    → let back = restore_iter m (clear_pattr scan) in
      Scanned m idx r (if back.offtab idx == 0 then mark_not_found back else back)
after_loop m scan idx r mem err entry within =
    let s = settled (restore_iter m (clear_pattr scan)) idx r entry within in
    record {
      entry = s.entry;
      same_mem = s.same_mem ∙ mem;
      same_err = s.same_err ∙ err;
      same_flags = s.same_flags;
      same_place = s.same_place;
      same_end = s.same_end;
    }

pub scan_attrs_lem :
    (heap : Heap) (m : Msg) (code : ℕ) (ps : List ℕ)
    → attr_code_index code ≢ 0
    → type_of m ≡ bgp_update
    → m.err ≡ noerr
    → m.flags.rd ≡ true
    → m.flags.wr ≡ false
    → is_idle m.flags ≡ true
    → m.offtab (attr_code_index code - 1) ≡ 0
    → Attribs m.mem (nlri_start m.mem) (attribs_start m.mem) ps
    → nlri_start m.mem < offset_not_found
    → Returns (scan_attrs heap m code (attr_code_index code - 1)) (λ done m'.
      (done ≡ true) × Scanned m (attr_code_index code - 1) (first_attr m.mem code ps) m')
unfolding scan_attrs
scan_attrs_lem heap m code ps known typed ok rd wr idle unset attrs small =
    let idx = attr_code_index code - 1 in
    let r = first_attr m.mem code ps in
    let Goal : Bool → Msg → Type 0 = λ done m'. (done ≡ true) × Scanned m idx r m' in
    let fuel = suc (nlri_start m.mem - attribs_start m.mem) in
    let rest = λ (_ : Option ℕ) (scan : Msg). endbgpattribs scan >>= λ e scan.
    if is_err e
    then ret false scan
    else let back = restore_iter m scan in
      ret true (if back.offtab idx == 0 then mark_not_found back else back) in
    let sought =
      seek_loop_lem code fuel (scanning m) m.mem (nlri_start m.mem) (attribs_start m.mem) ps known
        ok rd refl refl refl refl attrs (omega arith) in
    rw (startbgpattribs_run heap m typed ok wr idle) (
      Returns-bind (seek_loop fuel code (scanning m)) rest (Answers (scanning m) code r) Goal sought
        λ _ scan (_, found).
          let kept = found.kept in
          rw
            (endbgpattribs_run scan (kept.same_err ∙ ok) (ap (λ f. f.wr) kept.same_flags ∙ wr)
              (ap (λ f. f.pattr) kept.same_flags))
            (
              refl,
              after_loop m scan idx r kept.same_mem kept.same_err
                  (found.entry ∙ ap (λ old. entry_after old r) unset)
                  (Within-weaken 1 (nlri_start m.mem) offset_not_found r
                    (Within-first_attr m.mem (nlri_start m.mem) ps (attribs_start m.mem) code 1
                      (omega arith) attrs)
                    (omega arith)),
            ))
