-- ===== src/Bgp/PathStep.antt =====
-- One call of `nextaspath`: inside a segment, at the head of one, and at the end of the path
-- (src/ubgp/bgp.c).
use ubgpsuite.Base.{
  ℕ, zero, suc, ◌+◌, ◌-◌, ◌%◌, ◌^◌, ◌≤◌, ◌<◌, ◌≡◌, ◌≢◌, refl, ◌∙◌, sym, ap, Bool, true, false, ltb,
  ◌==◌, not, if_true, if_false, Option, none, some, arith, Bool-cases, inl, inr,
}
use ubgpsuite.Bgp.State.{
  Msg, AsPathent, noerr, Outcome, ret, fault, ◌>>=◌, check_flags_r_ok, ebadattr,
}
use ubgpsuite.Bgp.Path.{
  set_path, enter_segment, read_as, take_as, switch_path, path_round, path_taken,
}

-- The message at the first AS of the segment whose header is at `asptr`.
abbrev pub entered : Msg → Msg
entered m =
    let p = m.path in
    set_path m (record p {
      asptr = p.asptr + 2;
      seglen = m.mem (p.asptr + 1);
      segi = 0;
      asp = record (p.asp) { type = m.mem p.asptr; segno = (p.asp.segno + 1) % 2 ^ 32 };
    })

pub enter_inside :
    (fuel : ℕ) (m : Msg)
    → (m.path.segi == m.path.seglen) ≡ false
    → enter_segment (suc fuel) m ≡ ret true m
unfolding enter_segment
enter_inside fuel m e = if_true (not (m.path.segi == m.path.seglen)) _ _ (ap not e)

pub enter_end :
    (fuel : ℕ) (m : Msg)
    → (m.path.segi == m.path.seglen) ≡ true
    → (m.path.asptr == m.path.asend) ≡ true
    → enter_segment (suc fuel) m ≡ ret false m
unfolding enter_segment
enter_end fuel m e1 e2 =
    if_false (not (m.path.segi == m.path.seglen)) _ _ (ap not e1)
    ∙ if_true (m.path.asptr == m.path.asend) _ _ e2

pub enter_bad :
    (fuel : ℕ) (m : Msg)
    → (m.path.segi == m.path.seglen) ≡ true
    → (m.path.asptr == m.path.asend) ≡ false
    → ltb m.path.asend (m.path.asptr + 2) ≡ true
    → enter_segment (suc fuel) m ≡ ret false (record m { err = ebadattr })
unfolding enter_segment
enter_bad fuel m e1 e2 e3 =
    if_false (not (m.path.segi == m.path.seglen)) _ _ (ap not e1)
    ∙ if_false (m.path.asptr == m.path.asend) _ _ e2
    ∙ if_true (ltb m.path.asend (m.path.asptr + 2)) _ _ e3

pub enter_next :
    (fuel : ℕ) (m : Msg)
    → (m.path.segi == m.path.seglen) ≡ true
    → (m.path.asptr == m.path.asend) ≡ false
    → ltb m.path.asend (m.path.asptr + 2) ≡ false
    → enter_segment (suc fuel) m ≡ enter_segment fuel (entered m)
unfolding enter_segment
enter_next fuel m e1 e2 e3 =
    if_false (not (m.path.segi == m.path.seglen)) _ _ (ap not e1)
    ∙ if_false (m.path.asptr == m.path.asend) _ _ e2
    ∙ if_false (ltb m.path.asend (m.path.asptr + 2)) _ _ e3

ret≢fault {ℓ} : {A : Type ℓ} (a : A) (m : Msg) → ret a m ≢ fault
ret≢fault a m e = cc

-- With more fuel than there are bytes left, the loop of `nextaspath` ends without running out of it,
-- and all such amounts of fuel give the same answer.
pub enter_segment_fuel :
    (fuel fuel' : ℕ) (m : Msg)
    → suc (m.path.asend - m.path.asptr) < fuel
    → suc (m.path.asend - m.path.asptr) < fuel'
    → (enter_segment fuel m ≡ enter_segment fuel' m) × (enter_segment fuel m ≢ fault)
enter_segment_fuel zero fuel' m h h' = absurd (omega arith)
enter_segment_fuel (suc fuel) zero m h h' = absurd (omega arith)
enter_segment_fuel (suc fuel) (suc fuel') m h h' =
    elim (Bool-cases (m.path.segi == m.path.seglen)) [
      | inr e1 ↦
          let run = enter_inside fuel m e1 in
          (run ∙ sym (enter_inside fuel' m e1), λ q. ret≢fault true m (sym run ∙ q))
      | inl e1 ↦ elim (Bool-cases (m.path.asptr == m.path.asend)) [
        | inl e2 ↦
            let run = enter_end fuel m e1 e2 in
            (run ∙ sym (enter_end fuel' m e1 e2), λ q. ret≢fault false m (sym run ∙ q))
        | inr e2 ↦ elim (Bool-cases (ltb m.path.asend (m.path.asptr + 2))) [
          | inl e3 ↦
              let run = enter_bad fuel m e1 e2 e3 in
              (
                run ∙ sym (enter_bad fuel' m e1 e2 e3),
                λ q. ret≢fault false (record m { err = ebadattr }) (sym run ∙ q),
              )
          | inr e3 ↦
              let run = enter_next fuel m e1 e2 e3 in
              let room : m.path.asptr + 2 ≤ m.path.asend = ground (arith, e3) in
              let rest =
                enter_segment_fuel fuel fuel' (entered m) (omega (arith, room, h))
                  (omega (arith, room, h')) in
              (run ∙ rest.0 ∙ sym (enter_next fuel' m e1 e2 e3), λ q. rest.1 (sym run ∙ q))
        ]
      ]
    ]

-- A round whose loop ends in a known way.
pub path_round_run :
    (again : Msg → Outcome (Option AsPathent)) (m : Msg) (o : Outcome Bool)
    → m.err ≡ noerr
    → m.flags.aspath ≡ true
    → enter_segment (suc (suc (m.path.asend - m.path.asptr))) m ≡ o
    → path_round again m ≡ (o >>= path_taken again)
unfolding path_round
path_round_run again m o ok open_ run =
    let rest : Msg → Outcome (Option AsPathent) =
      λ m. enter_segment (suc (suc (m.path.asend - m.path.asptr))) m >>= path_taken again in
    check_flags_r_ok (λ f. f.aspath) (λ _. none) m rest open_ ok
    ∙ ap (λ o. o >>= path_taken again) run

-- Inside a segment, the AS at `asptr` is the answer.
pub path_round_inside :
    (again : Msg → Outcome (Option AsPathent)) (m : Msg)
    → m.err ≡ noerr
    → m.flags.aspath ≡ true
    → (m.path.segi == m.path.seglen) ≡ false
    → (m.path.ascount == 0) ≡ false
    → path_round again m ≡ ret (some (read_as m).asp) (set_path m (take_as (read_as m)))
unfolding path_taken
path_round_inside again m ok open_ e left =
    path_round_run again m (ret true m) ok open_ (enter_inside _ m e)
    ∙ if_false (m.path.ascount == 0) _ _ left

-- Inside a segment of AS_PATH from which no more ASes are to be taken, it goes on in AS4_PATH.
pub path_round_switch :
    (again : Msg → Outcome (Option AsPathent)) (m : Msg)
    → m.err ≡ noerr
    → m.flags.aspath ≡ true
    → (m.path.segi == m.path.seglen) ≡ false
    → (m.path.ascount == 0) ≡ true
    → path_round again m ≡ again (switch_path m (read_as m))
unfolding path_taken
path_round_switch again m ok open_ e left =
    path_round_run again m (ret true m) ok open_ (enter_inside _ m e)
    ∙ if_true (m.path.ascount == 0) _ _ left

-- At the end of the path the answer is NULL.
pub path_round_end :
    (again : Msg → Outcome (Option AsPathent)) (m : Msg)
    → m.err ≡ noerr
    → m.flags.aspath ≡ true
    → (m.path.segi == m.path.seglen) ≡ true
    → (m.path.asptr == m.path.asend) ≡ true
    → path_round again m ≡ ret none m
unfolding path_taken
path_round_end again m ok open_ e1 e2 =
    path_round_run again m (ret false m) ok open_ (enter_end _ m e1 e2)

-- At the header of a segment, it is as at the first AS of the segment.
pub path_round_enter :
    (again : Msg → Outcome (Option AsPathent)) (m : Msg)
    → m.err ≡ noerr
    → m.flags.aspath ≡ true
    → (m.path.segi == m.path.seglen) ≡ true
    → m.path.asptr + 2 ≤ m.path.asend
    → path_round again m ≡ path_round again (entered m)
path_round_enter again m ok open_ e1 room =
    let left = m.path.asend - m.path.asptr in
    let less = m.path.asend - (m.path.asptr + 2) in
    let e2 : (m.path.asptr == m.path.asend) ≡ false = ground (arith, room) in
    let e3 : ltb m.path.asend (m.path.asptr + 2) ≡ false = ground (arith, room) in
    let same =
      enter_segment_fuel (suc left) (suc (suc less)) (entered m) (omega (arith, room))
        (omega (arith, room)) in
    path_round_run again m (enter_segment (suc (suc less)) (entered m)) ok open_
      (enter_next (suc left) m e1 e2 e3 ∙ same.0)
    ∙ sym (path_round_run again (entered m) _ ok open_ refl)
