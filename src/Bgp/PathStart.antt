-- ===== src/Bgp/PathStart.antt =====
-- `startaspath` on an update that is open for reading, followed by `nextaspath` until it answers NULL
-- (src/ubgp/bgp.c).
use ubgpsuite.Base.{
  ℕ, ◌-◌, ◌<◌, ◌≡◌, refl, subst, ◌∙◌, sym, ap, true, false, Mem, IsBytes, Option, some, arith, List,
}
use ubgpsuite.Attr.Header.{getattrdata, as_path_code}
use ubgpsuite.Bgp.State.{
  Msg, Err, AsPathent, noerr, Outcome, Returns, Returns-bind, ret, Heap, ◌>>=◌, bind_assoc,
  bgp_update, type_of, check_type_flags_r_ok, offset_not_found,
}
use ubgpsuite.Bgp.Read.{attr_code_index}
use ubgpsuite.Bgp.Lookup.{getbgpaspath}
use ubgpsuite.Bgp.Create.{is_idle, endpending_idle}
use ubgpsuite.Bgp.Update.{nlri_start, attribs_start}
use ubgpsuite.Bgp.Attribs.{Attribs, attr_end, first_attr}
use ubgpsuite.Bgp.Search.{seekbgpattr_lem}
use ubgpsuite.Bgp.Path.{
  ascount_all, segno_start, as_size_of, with_aspath, set_path, at_path, dostartaspath, startaspath,
}
use ubgpsuite.Bgp.PathWalk.{read_path, path_entries, ases_in, IsSegments, Walking, read_path_all}

-- An update that is open for reading with no field open and no error, with the attributes at the
-- offsets of a list, in which AS_PATH has not been looked for.
pub record Readable (m : Msg) (attrs : List ℕ) (code : ℕ) : Type 0 where
  pub typed : type_of m ≡ bgp_update
  pub no_error : m.err ≡ noerr
  pub reading : m.flags.rd ≡ true
  pub not_writing : m.flags.wr ≡ false
  pub idle : is_idle m.flags ≡ true
  pub unset : m.offtab (attr_code_index code - 1) ≡ 0
  pub attribs : Attribs m.mem (nlri_start m.mem) (attribs_start m.mem) attrs
  pub small : nlri_start m.mem < offset_not_found
  pub bytes : IsBytes m.mem

-- The iterator at an attribute, on a message with no field open.
abbrev started : Msg → ℕ → ℕ → Msg
started m a size = with_aspath (set_path m (at_path m (some a) size))

dostartaspath_run :
    (m : Msg) (a size : ℕ)
    → is_idle m.flags ≡ true
    → dostartaspath m (some a) size ≡ ret noerr (started m a size)
unfolding dostartaspath
dostartaspath_run m a size idle =
    ap (λ o. o >>= λ _ m. ret noerr (started m a size)) (endpending_idle m idle)

-- The answers are the entries of the segments of an attribute.
abbrev pub ReadPath : Mem → ℕ → List ℕ → List AsPathent → Msg → Type 0
ReadPath mem size ps r m' =
    (r ≡ path_entries mem size segno_start ps) × (m'.path.asptr ≡ m'.path.asend) × (m'.err ≡ noerr)

started-Walking :
    (m : Msg) (a size : ℕ) (ps : List ℕ)
    → m.err ≡ noerr
    → IsSegments m.mem size (attr_end m.mem a) (getattrdata m.mem a) ps
    → Walking (started m a size) 0 ps
started-Walking m a size ps ok segments = record {
  no_error = ok;
  open_ = refl;
  in_segment = refl;
  one_byte = omega arith;
  segments = subst (λ p. IsSegments m.mem size (attr_end m.mem a) p ps) (omega arith) segments;
}

dostartaspath-read_path :
    (m : Msg) (a size fuel : ℕ) (ps : List ℕ)
    → m.err ≡ noerr
    → is_idle m.flags ≡ true
    → IsBytes m.mem
    → IsSegments m.mem size (attr_end m.mem a) (getattrdata m.mem a) ps
    → ases_in m.mem ps < ascount_all
    → ases_in m.mem ps < fuel
    → Returns (dostartaspath m (some a) size >>= λ _ m. read_path fuel m) (ReadPath m.mem size ps)
dostartaspath-read_path m a size fuel ps ok idle bytes segments few enough =
    subst (λ o. Returns (o >>= λ _ m. read_path fuel m) (ReadPath m.mem size ps))
      (sym (dostartaspath_run m a size idle))
      (read_path_all fuel ps 0 (started m a size) bytes (started-Walking m a size ps ok segments)
        (omega (arith, few)) (omega arith) (omega (arith, enough)))

-- On an update that is open for reading, whose attributes are well formed and whose AS_PATH, which
-- has not been looked for, is made of whole segments with fewer than 65535 ASes: after `startaspath`,
-- `nextaspath` answers the ASes of the segments in their order, with their segments' types and
-- numbers, and then NULL, at the end of the attribute and without an error.
pub startaspath-read_path :
    (heap : Heap) (m : Msg) (attrs ps : List ℕ) (a fuel : ℕ)
    → Readable m attrs as_path_code
    → first_attr m.mem as_path_code attrs ≡ some a
    → IsSegments m.mem (as_size_of m.flags) (attr_end m.mem a) (getattrdata m.mem a) ps
    → ases_in m.mem ps < ascount_all
    → ases_in m.mem ps < fuel
    → Returns
        (startaspath heap m >>= λ _ m. read_path fuel m)
        (ReadPath m.mem (as_size_of m.flags) ps)
unfolding startaspath getbgpaspath attr_code_index
startaspath-read_path heap m attrs ps a fuel h found segments few enough =
    let size = as_size_of m.flags in
    let start : Option ℕ → Msg → Outcome Err = λ attr m. dostartaspath m attr size in
    let read : Err → Msg → Outcome (List AsPathent) = λ _ m. read_path fuel m in
    let rest : Msg → Outcome Err =
      λ m. getbgpaspath heap m >>= λ attr m'. dostartaspath m' attr (as_size_of m.flags) in
    let run =
      check_type_flags_r_ok bgp_update (λ f. f.rd) (λ e. e) m rest h.typed h.reading h.no_error in
    let looked =
      seekbgpattr_lem heap m as_path_code attrs (omega arith) h.typed h.no_error h.reading
        h.not_writing h.idle h.unset h.attribs h.small in
    subst (λ o. Returns o (ReadPath m.mem size ps))
      (sym (ap (λ o. o >>= read) run ∙ bind_assoc (getbgpaspath heap m) start read))
      (Returns-bind (getbgpaspath heap m) (λ attr m. start attr m >>= read) _
        (ReadPath m.mem size ps) looked
        λ r m' (answer, ok, flags, place, end, mem).
          subst (λ r. Returns (start r m' >>= read) (ReadPath m.mem size ps)) (sym (answer ∙ found))
            (subst (λ k. Returns (start (some a) m' >>= read) (ReadPath k size ps)) mem
              (dostartaspath-read_path m' a size fuel ps ok (ap is_idle flags ∙ h.idle)
                (subst IsBytes (sym mem) h.bytes)
                (subst (λ k. IsSegments k size (attr_end k a) (getattrdata k a) ps) (sym mem)
                  segments)
                (subst (λ k. ases_in k ps < ascount_all) (sym mem) few)
                (subst (λ k. ases_in k ps < fuel) (sym mem) enough))))
