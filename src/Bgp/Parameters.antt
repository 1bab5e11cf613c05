-- ===== src/Bgp/Parameters.antt =====
-- Storing the parameters of an open message as a whole: `setbgpparams` (src/ubgp/bgp.c).
use ubgpsuite.Base.{
  ℕ, ◌+◌, ◌≤◌, ◌<◌, ◌≡◌, refl, ◌∙◌, true, false, ltb, if◌then◌else◌, Mem, copy, arith,
}
use ubgpsuite.Bgp.State.{
  Msg, noerr, einvop, Returns, ret, check_type_flags_r_ok, store, type_of, bgp_open, params_offset,
  params_length_offset,
}
use ubgpsuite.Bgp.Open.{setbgpparams}

-- The message with `n` bytes of parameters.
abbrev with_params : Msg → Mem → ℕ → Msg
with_params m bytes n = record m {
  mem = copy (copy m.mem 1 (λ j. n) 0 1) params_offset bytes 0 n;
  pktlen = params_offset + n;
}

setbgpparams_run :
    (m : Msg) (bytes : Mem) (n : ℕ)
    → type_of m ≡ bgp_open
    → m.err ≡ noerr
    → m.flags.wr ≡ true
    → n ≤ 255
    → params_offset + n ≤ m.bufsiz
    → setbgpparams m bytes n ≡ ret noerr (with_params m bytes n)
unfolding setbgpparams
setbgpparams_run m bytes n typed ok wr small room =
    let rest = λ (m : Msg).
      if ltb 0xff n
      then ret einvop (record m { err = einvop })
      else store m 1 (λ _. n) 1
          λ m.
            store m params_offset bytes n
              λ m. ret noerr (record m { pktlen = params_offset + n }) in
    let short : ltb 0xff n ≡ false = ground (arith, small) in
    let one : ltb m.bufsiz (1 + 1) ≡ false = ground (arith, room) in
    let fits : ltb m.bufsiz (params_offset + n) ≡ false = ground (arith, room) in
    check_type_flags_r_ok bgp_open (λ f. f.wr) (λ e. e) m rest typed wr ok
    ∙ rw (short, one, fits) refl

-- For parameters of at most 255 bytes that fit the buffer, in an open message that is being written
-- with no error so far, `setbgpparams` stores them behind the length byte and sets the length of the
-- packet, but the length byte keeps its value and the second byte of the packet is overwritten.
pub setbgpparams_lem :
    (m : Msg) (bytes : Mem) (n : ℕ)
    → type_of m ≡ bgp_open
    → m.err ≡ noerr
    → m.flags.wr ≡ true
    → n ≤ 255
    → params_offset + n ≤ m.bufsiz
    → Returns (setbgpparams m bytes n) (λ e m'.
      (e ≡ noerr)
      × (m'.pktlen ≡ params_offset + n)
      × ((j : ℕ) → j < n → m'.mem (params_offset + j) ≡ bytes j)
      × (m'.mem params_length_offset ≡ m.mem params_length_offset)
      × (m'.mem 1 ≡ n))
setbgpparams_lem m bytes n typed ok wr small room =
    rw (setbgpparams_run m bytes n typed ok wr small room)
      (refl, refl, (λ j h. ground arith), ground arith, ground arith)
