-- ===== src/Bgp/Seek.antt =====
-- The search for an attribute: `seekbgpattr` against a search in the list of the attributes
-- (src/ubgp/bgp.c).
use ubgpsuite.Base.{
  ℕ, zero, suc, ◌+◌, ◌-◌, ◌%◌, ◌^◌, ◌<◌, ◌≡◌, ◌≢◌, refl, ◌∙◌, sym, ap, true, false, ◌==◌,
  if◌then◌else◌, Mem, Option, none, some, arith, List, [], ◌∷◌, inl, inr, Bool-cases,
}
use ubgpsuite.Attr.Header.{attr_code}
use ubgpsuite.Bgp.State.{Msg, noerr, Outcome, Returns, Returns-map, ret, ◌>>=◌}
use ubgpsuite.Bgp.Read.{attr_code_index, nextbgpattrib, seek_round, seek_loop}
use ubgpsuite.Bgp.Attribs.{
  Attribs, Kept, passed-Kept, passed_uptr, attr, no_more, first_attr, Attribs-le, attr_end, passed,
  nextbgpattrib_run, nextbgpattrib_end,
}

-- The code with a place in the offset table.
index_code : ℕ → ℕ
index_code idx =
    if idx == 1
    then 2
    else if idx == 2
    then 1
    else if idx == 3
    then 6
    else if idx == 4
    then 7
    else if idx == 5
    then 3
    else if idx == 6
    then 8
    else if idx == 7
    then 14
    else if idx == 8
    then 15
    else if idx == 9
    then 16
    else if idx == 10
    then 17
    else if idx == 11
    then 18
    else 32

index_code_lem : (code : ℕ) → attr_code_index code ≢ 0 → index_code (attr_code_index code) ≡ code
unfolding attr_code_index index_code
index_code_lem code h = ground (arith, h)

-- No two codes have the same place in the table.
pub index_injective :
    (c d : ℕ) → attr_code_index c ≢ 0 → attr_code_index d ≡ attr_code_index c → d ≡ c
index_injective c d h e =
    sym (index_code_lem d (λ z. h (sym e ∙ z))) ∙ ap index_code e ∙ index_code_lem c h

neq-== : (a b : ℕ) → a ≢ b → (a == b) ≡ false
neq-== a b h = ground (arith, h)

==-neq : (a b : ℕ) → (a == b) ≡ false → a ≢ b
==-neq a b h = ground (arith, h)

pred_injective : (a b : ℕ) → (a == 0) ≡ false → b ≢ 0 → a - 1 ≡ b - 1 → a ≡ b
pred_injective a b h k e = ground (arith, h, k, e)

-- The entry of the table for `code` after the attribute at `p` was passed.
passed_entry :
    (m : Msg) (p code : ℕ)
    → attr_code_index code ≢ 0
    → (passed m p).offtab (attr_code_index code - 1)
      ≡ (if attr_code m.mem p == code then p % 2 ^ 16 else m.offtab (attr_code_index code - 1))
unfolding passed
passed_entry m p code h =
    let d = attr_code m.mem p in
    elim (Bool-cases (attr_code_index d == 0)) [
      | inl e ↦
          let zero_ : attr_code_index d ≡ 0 = ground (arith, e) in
          let other : (d == code) ≡ false =
            neq-== d code (λ same. h (ap attr_code_index (sym same) ∙ zero_)) in
          rw (e, other) refl
      | inr e ↦ elim (Bool-cases (d == code)) [
        | inl same ↦
            let eq : d ≡ code = ground (arith, same) in
            let here : (attr_code_index code - 1 == attr_code_index d - 1) ≡ true =
              rw eq (ground arith) in
            rw (e, here, same) refl
        | inr other ↦
            let apart = neq-== (attr_code_index code - 1) (attr_code_index d - 1) (λ eq. absurd (
              ==-neq d code other (
                index_injective code d h
                  (pred_injective (attr_code_index d) (attr_code_index code) e h (sym eq))))) in
            rw (e, apart, other) refl
      ]
    ]

-- The entry that a search which found `r` leaves, where it was `old` before.
abbrev pub entry_after : ℕ → Option ℕ → ℕ
entry_after old none = old
entry_after old (some p) = p % 2 ^ 16

-- The search found `r`, and the message is the same but for the place in the field and the table.
pub record Sought (m : Msg) (code : ℕ) (r : Option ℕ) (m' : Msg) : Type 0 where
  pub entry :
      m'.offtab (attr_code_index code - 1) ≡ entry_after (m.offtab (attr_code_index code - 1)) r
  pub kept : Kept m m'

Kept-trans : {m m' m'' : Msg} → Kept m m' → Kept m' m'' → Kept m m''
Kept-trans a b = record {
  same_mem = b.same_mem ∙ a.same_mem;
  same_flags = b.same_flags ∙ a.same_flags;
  same_err = b.same_err ∙ a.same_err;
  same_end = b.same_end ∙ a.same_end;
}

Kept-refl : (m : Msg) → Kept m m
Kept-refl m = record { same_mem = refl; same_flags = refl; same_err = refl; same_end = refl }

-- The next attribute is far enough for the fuel that is left.
enough_left : (m : Mem) (p end fuel : ℕ) → end < p + suc fuel → end < attr_end m p + fuel
enough_left m p end fuel h = ground (arith, h)

-- The answer of the search from a place in the field.
abbrev pub Answers : Msg → ℕ → Option ℕ → Option ℕ → Msg → Type 0
Answers m code want r m' = (r ≡ want) × Sought m code want m'

round_found :
    (next : Msg → Outcome (Option ℕ)) (code : ℕ) (m : Msg) (p : ℕ)
    → (attr_code m.mem p == code) ≡ true
    → seek_round next code (some p) m ≡ ret (some p) m
round_found next code m p t = rw (seek_round, t) refl

round_on :
    (next : Msg → Outcome (Option ℕ)) (code : ℕ) (m : Msg) (p : ℕ)
    → (attr_code m.mem p == code) ≡ false
    → seek_round next code (some p) m ≡ next m
round_on next code m p t = rw (seek_round, t) refl

-- One round of the loop, after which it ends or goes on.
seek_found :
    (fuel code : ℕ) (m m' : Msg) (p : ℕ)
    → nextbgpattrib m ≡ ret (some p) m'
    → (attr_code m'.mem p == code) ≡ true
    → seek_loop (suc fuel) code m ≡ ret (some p) m'
unfolding seek_loop
seek_found fuel code m m' p e t =
    ap (λ o. o >>= seek_round (seek_loop fuel code) code) e
    ∙ round_found (seek_loop fuel code) code m' p t

seek_on :
    (fuel code : ℕ) (m m' : Msg) (p : ℕ)
    → nextbgpattrib m ≡ ret (some p) m'
    → (attr_code m'.mem p == code) ≡ false
    → seek_loop (suc fuel) code m ≡ seek_loop fuel code m'
unfolding seek_loop
seek_on fuel code m m' p e t =
    ap (λ o. o >>= seek_round (seek_loop fuel code) code) e
    ∙ round_on (seek_loop fuel code) code m' p t

-- For a code with a place in the offset table, in a message with its attributes entered for
-- reading and no error so far, over well-formed attributes and with more fuel than the field has
-- bytes left, the loop of `seekbgpattr` answers the first attribute with the code, or NULL when
-- there is none. It leaves that attribute's offset, modulo 65536, in the table, or the entry as it
-- was, and keeps the packet, the flags and the error.
pub seek_loop_lem :
    (code fuel : ℕ) (m : Msg) (mem : Mem) (end ptr : ℕ) (ps : List ℕ)
    → attr_code_index code ≢ 0
    → m.err ≡ noerr
    → m.flags.rd ≡ true
    → m.flags.pattr ≡ true
    → m.mem ≡ mem
    → m.uend ≡ end
    → m.uptr ≡ ptr
    → Attribs mem end ptr ps
    → end < ptr + fuel
    → Returns (seek_loop fuel code m) (Answers m code (first_attr mem code ps))
unfolding seek_loop
seek_loop_lem code zero m mem end ptr ps h ok rd open_ em ee ep attrs enough =
    let le = Attribs-le attrs in absurd (omega arith)
seek_loop_lem code (suc fuel) m mem end _ [] h ok rd open_ em ee ep no_more enough =
    rw (nextbgpattrib_end m ok rd open_ (ep ∙ sym ee))
      (refl, record { entry = refl; kept = Kept-refl m })
seek_loop_lem code (suc fuel) m mem end ptr (_ ∷ ps) h ok rd open_ em ee ep (attr small attrs)
      enough =
    let m' = passed m m.uptr in
    let kept = passed-Kept m m.uptr in
    let entry : m'.offtab (attr_code_index code - 1) ≡ (
        if attr_code mem ptr == code then ptr % 2 ^ 16 else m.offtab (attr_code_index code - 1)) =
      passed_entry m m.uptr code h ∙ rw (em, ep) refl in
    let run =
      nextbgpattrib_run m ok rd open_ (rw (em, ee, ep) (Attribs-le attrs)) (rw (em, ep) small) in
    let test : (attr_code m'.mem m.uptr == code) ≡ (attr_code mem ptr == code) =
      rw (kept.same_mem, em, ep) refl in
    elim (Bool-cases (attr_code mem ptr == code)) [
      | inl e ↦
          rw (seek_found fuel code m m' m.uptr run (test ∙ e), e)
            (ap some ep, record { entry = entry ∙ rw e refl; kept = kept })
      | inr e ↦
          let next : m'.uptr ≡ attr_end mem ptr = passed_uptr m m.uptr ∙ rw (em, ep) refl in
          let rest =
            seek_loop_lem code fuel m' mem end (attr_end mem ptr) ps h (kept.same_err ∙ ok)
              (ap (λ f. f.rd) kept.same_flags ∙ rd) (ap (λ f. f.pattr) kept.same_flags ∙ open_)
              (kept.same_mem ∙ em) (kept.same_end ∙ ee) next attrs
              (enough_left mem ptr end fuel enough) in
          rw (seek_on fuel code m m' m.uptr run (test ∙ e), e)
            (Returns-map (seek_loop fuel code m') (Answers m' code (first_attr mem code ps))
              (Answers m code (first_attr mem code ps)) rest
              λ r m'' (found, sought). (
                found,
                record {
                  entry =
                      sought.entry
                      ∙ ap (λ old. entry_after old (first_attr mem code ps)) (entry ∙ rw e refl);
                  kept = Kept-trans kept sought.kept;
                },
              ))
    ]
