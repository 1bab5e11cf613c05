-- ===== src/Bgp/PathReal.antt =====
-- `startrealaspath` where AS4_PATH is present, followed by `nextaspath` until it answers NULL
-- (src/ubgp/bgp.c).
use ubgpsuite.Base.{
  ℕ, zero, suc, ◌+◌, ◌-◌, ◌*◌, ◌%◌, ◌^◌, ◌<◌, ◌≡◌, subst, ◌∙◌, sym, ap, true, false, ltb, ◌==◌,
  if◌then◌else◌, if_true, if_false, Mem, IsBytes, Bool-cases, arith, List, [], ◌∷◌, inl, inr,
}
use ubgpsuite.Attr.Header.{getattrlen, getattrdata}
use ubgpsuite.Bgp.State.{Msg, AsPathent, noerr, Returns, ret, ◌>>=◌}
use ubgpsuite.Bgp.Path.{as_segment_set, ascount_all, count_ases, merge_as4path}
use ubgpsuite.Bgp.PathWalk.{
  read_path, path_entries, ases_in, IsSegments, IsSegments-le, Walking, read_path_all,
}
use ubgpsuite.Bgp.PathMerge.{NoSets, merged, read_path_merge}

-- The loop that counts ASes ends at the end of well-formed segments, with their number.
count_ases_lem :
    (fuel : ℕ) (m : Mem) (ptr end size count : ℕ) (ps : List ℕ)
    → IsSegments m size end ptr ps
    → NoSets m ps
    → end - ptr < fuel
    → count_ases fuel m ptr end size count ≡ (end, count + ases_in m ps)
unfolding count_ases
count_ases_lem zero m ptr end size count ps segments plain enough = absurd (omega arith)
count_ases_lem (suc fuel) m ptr end size count [] at_end plain enough =
    let stop : ltb ptr end ≡ false = ground (arith, at_end) in
    if_false (ltb ptr end) _ _ stop ∙ ap (λ p. (p, count)) at_end ∙ ap (λ c. (end, c)) (omega arith)
count_ases_lem (suc fuel) m ptr end size count (p ∷ ps) (at_ptr, segments) (plain, plains) enough =
    let inside = IsSegments-le m size end (p + 2 + m (p + 1) * size) ps segments in
    let go : ltb ptr end ≡ true = ground (arith, at_ptr, inside) in
    let n = m (ptr + 1) in
    let next = ptr + 2 + n * size in
    let segments' : IsSegments m size end next ps =
      subst (λ q. IsSegments m size end (q + 2 + m (q + 1) * size) ps) at_ptr segments in
    let rest =
      count_ases_lem fuel m next end size (count + n) ps segments' plains
        (omega (arith, inside, enough, IsSegments-le m size end next ps segments')) in
    let number : (if m ptr == as_segment_set then 1 else n) ≡ n =
      if_false (m ptr == as_segment_set) 1 n
        (subst (λ q. (m q == as_segment_set) ≡ false) at_ptr plain) in
    if_true (ltb ptr end) _ _ go
    ∙ ap (λ k. count_ases fuel m next end size (count + k)) number
    ∙ rest
    ∙ ap (λ c. (end, c)) (ap (λ q. count + m (q + 1) + ases_in m ps) (sym at_ptr) ∙ omega arith)

-- What `merge_as4path` needs: the two attributes are segments without sets.
pub record Paths (m : Msg) (a : ℕ) (ps ps4 : List ℕ) : Type 0 where
  pub no_error : m.err ≡ noerr
  pub open_ : m.flags.aspath ≡ true
  pub bytes : IsBytes m.mem
  pub two_bytes : m.path.asp.as_size ≡ 2
  pub at_header : m.path.segi ≡ 0
  pub no_segment : m.path.seglen ≡ 0
  pub all_ases : m.path.ascount ≡ ascount_all
  pub segments : IsSegments m.mem 2 m.path.asend m.path.asptr ps
  pub segments4 :
      IsSegments m.mem 4 (getattrdata m.mem a + getattrlen m.mem a) (getattrdata m.mem a) ps4
  pub plain : NoSets m.mem ps
  pub plain4 : NoSets m.mem ps4
  pub few : ases_in m.mem ps < ascount_all

-- The message that goes on in the attribute at `a` after `count` ASes.
abbrev pub with_as4path : Msg → ℕ → ℕ → Msg
with_as4path m a count = record m {
  path = record (m.path) {
    as4ptr = getattrdata m.mem a;
    as4end = getattrdata m.mem a + getattrlen m.mem a;
    ascount = count;
  };
  flags = record (m.flags) { realaspath = true };
}

merge_as4path_run :
    (m : Msg) (a : ℕ) (ps ps4 : List ℕ)
    → Paths m a ps ps4
    → merge_as4path m a ≡ (
        if ltb (ases_in m.mem ps) (ases_in m.mem ps4)
        then ret noerr m
        else ret noerr (with_as4path m a ((ases_in m.mem ps - ases_in m.mem ps4) % 2 ^ 16)))
unfolding merge_as4path
merge_as4path_run m a ps ps4 h =
    let n = getattrlen m.mem a in
    let start = getattrdata m.mem a in
    let asend = m.path.asend in
    let e1 : count_ases (suc (asend - m.path.asptr)) m.mem m.path.asptr asend 2 0
        ≡ (asend, ases_in m.mem ps) =
      count_ases_lem (suc (asend - m.path.asptr)) m.mem m.path.asptr asend 2 0 ps h.segments h.plain
        (omega arith)
      ∙ ap (λ c. (asend, c)) (omega arith) in
    let e2 : count_ases (suc n) m.mem start (start + n) 4 0 ≡ (start + n, ases_in m.mem ps4) =
      count_ases_lem (suc n) m.mem start (start + n) 4 0 ps4 h.segments4 h.plain4 (omega arith)
      ∙ ap (λ c. (start + n, c)) (omega arith) in
    rw (e1, e2)
      (if_false (ltb asend asend) _ _ (ground arith)
        ∙ if_false (ltb (start + n) (start + n)) _ _ (ground arith))

-- The entries of AS_PATH and of AS4_PATH, merged as RFC 6793 says: an AS4_PATH with more ASes is
-- ignored, and otherwise replaces the last ASes.
abbrev pub real_entries : Msg → ℕ → List ℕ → List ℕ → List AsPathent
real_entries m size ps ps4 =
    let all = path_entries m.mem size m.path.asp.segno ps in
    let n = ases_in m.mem ps in
    let n4 = ases_in m.mem ps4 in
    if ltb n n4 then all else merged (n - n4) all (λ segno. path_entries m.mem 4 segno ps4)

-- The answers of `nextaspath`.
abbrev pub Read : List AsPathent → List AsPathent → Msg → Type 0
Read entries r m' = (r ≡ entries) × (m'.path.asptr ≡ m'.path.asend) × (m'.err ≡ noerr)

at_start : (m : Msg) (a : ℕ) (ps ps4 : List ℕ) → Paths m a ps ps4 → Walking m 0 ps
at_start m a ps ps4 h =
    let two = h.two_bytes in
    record {
      no_error = h.no_error;
      open_ = h.open_;
      in_segment = ground (arith, h.at_header, h.no_segment);
      one_byte = ground (arith, h.no_segment);
      segments =
          subst (λ p. IsSegments m.mem m.path.asp.as_size m.path.asend p ps) (omega arith)
            (subst (λ s. IsSegments m.mem s m.path.asend m.path.asptr ps) (sym two) h.segments);
    }

merge_as4path-Read :
    (m : Msg) (a : ℕ) (ps ps4 : List ℕ) (fuel : ℕ)
    → Paths m a ps ps4
    → ases_in m.mem ps + ases_in m.mem ps4 < fuel
    → Returns
        (merge_as4path m a >>= λ _ m'. read_path fuel m')
        (Read (real_entries m m.path.asp.as_size ps ps4))
merge_as4path-Read m a ps ps4 fuel h enough =
    let n = ases_in m.mem ps in
    let n4 = ases_in m.mem ps4 in
    let size = m.path.asp.as_size in
    let walk = at_start m a ps ps4 h in
    let all = path_entries m.mem size m.path.asp.segno ps in
    let both = merged (n - n4) all (λ segno. path_entries m.mem 4 segno ps4) in
    let run = merge_as4path_run m a ps ps4 h in
    elim (Bool-cases (ltb n n4)) [
      | inl e ↦
          let alone =
            read_path_all fuel ps 0 m h.bytes walk (ground (arith, h.few, h.all_ases))
              (ground (arith, h.all_ases)) (omega (arith, enough)) in
          subst (λ o. Returns (o >>= λ _ m'. read_path fuel m') (Read (real_entries m size ps ps4)))
            (sym (run ∙ if_true (ltb n n4) _ _ e))
            (subst (λ l. Returns (read_path fuel m) (Read l)) (sym (if_true (ltb n n4) all both e))
              alone)
      | inr e ↦
          let m' = with_as4path m a ((n - n4) % 2 ^ 16) in
          let more =
            read_path_merge fuel ps 0 (n - n4) m' ps4
              (record { bytes = h.bytes; segments4 = h.segments4; few = ground (arith, h.few, e) })
              (record {
                no_error = h.no_error;
                open_ = h.open_;
                in_segment = walk.in_segment;
                one_byte = walk.one_byte;
                segments = walk.segments;
              })
              (λ bad. absurd (omega (arith, bad))) h.plain (ground (arith, h.few))
              (ground (arith, h.few)) (omega (arith, enough)) in
          subst (λ o. Returns (o >>= λ _ m'. read_path fuel m') (Read (real_entries m size ps ps4)))
            (sym (run ∙ if_false (ltb n n4) _ _ e))
            (subst (λ l. Returns (read_path fuel m') (Read l))
              (sym (if_false (ltb n n4) all both e)) more)
    ]

-- For an AS_PATH of two-byte ASes and an AS4_PATH that are whole segments without sets, and fewer than
-- 65535 ASes: once `startrealaspath` has counted the ASes of both, `nextaspath` answers the first ASes
-- of AS_PATH, by which it is longer than AS4_PATH, then the ASes of AS4_PATH, and then NULL. Where
-- AS4_PATH has more ASes than AS_PATH, it answers those of AS_PATH alone.
pub merge_as4path-read_path :
    (m : Msg) (a : ℕ) (ps ps4 : List ℕ) (fuel : ℕ)
    → Paths m a ps ps4
    → ases_in m.mem ps + ases_in m.mem ps4 < fuel
    → Returns (merge_as4path m a >>= λ _ m'. read_path fuel m') (Read (real_entries m 2 ps ps4))
merge_as4path-read_path m a ps ps4 fuel h enough =
    subst
      (λ s.
        Returns (merge_as4path m a >>= λ _ m'. read_path fuel m') (Read (real_entries m s ps ps4)))
      h.two_bytes (merge_as4path-Read m a ps ps4 fuel h enough)
