-- ===== src/Bgp/Create.antt =====
-- `setbgpwrite` and `bgpfinish` (src/ubgp/bgp.c): the packet that is made, and its header.
use ubgpsuite.Base.{
  ℕ, if_true, ◌-◌, ◌≤◌, ◌<◌, ◌≡◌, ◌≢◌, refl, Bool, true, false, ◌==◌, not, Mem, put8, fill, get16,
  arith, ◌||◌,
}
use ubgpsuite.Bgp.State.{
  Msg, Flags, noerr, Returns, ret, type_offset, length_offset, base_packet_length, bgpbufsiz,
}
use ubgpsuite.Bgp.Message.{OpenFlags, bgp_minlengths, setbgpwrite}
use ubgpsuite.Bgp.Fields.{endpending}

-- No field is being written or read.
unfoldable pub is_idle : Flags → Bool
is_idle f = not (f.pm || f.withdrn || f.pattr || f.nlri || f.aspath || f.nhop || f.community)

pub endpending_idle : (m : Msg) → is_idle m.flags ≡ true → endpending m ≡ ret m.err m
unfolding endpending is_idle
endpending_idle m idle = if_true (is_idle m.flags) (ret m.err m) _ idle

-- A message that was just opened for writing with a known type.
pub record IsFresh (m : Msg) (type_ : ℕ) : Type 0 where
  pub no_error : m.err ≡ noerr
  pub writing : m.flags.wr ≡ true
  pub not_reading : m.flags.rd ≡ false
  pub idle : is_idle m.flags ≡ true
  pub not_all : m.flags.allnlri ≡ false
  pub in_fastbuf : m.fast ≡ true
  pub size : m.bufsiz ≡ bgpbufsiz
  pub packet_length : m.pktlen ≡ bgp_minlengths type_
  pub marker : (j : ℕ) → j < 16 → m.mem j ≡ 255
  pub no_length : get16 m.mem length_offset ≡ 0
  pub typed : m.mem type_offset ≡ type_
  pub rest_zero : (j : ℕ) → base_packet_length ≤ j → j < m.pktlen → m.mem j ≡ 0

minlengths_bounds :
    (type_ : ℕ)
    → bgp_minlengths type_ ≢ 0
    → (19 ≤ bgp_minlengths type_) × (bgp_minlengths type_ ≤ 29) × (type_ < 256)
minlengths_bounds type_ h = ground (arith, h)

-- The memory of a new packet of `n` bytes.
abbrev fresh_mem : Mem → ℕ → ℕ → Mem
fresh_mem m n type_ = put8 (fill (fill m 0 255 16) 16 0 (n - 16)) type_offset type_

fresh_mem_lem :
    (m : Mem) (n type_ : ℕ)
    → 19 ≤ n
    → type_ < 256
    → ((j : ℕ) → j < 16 → fresh_mem m n type_ j ≡ 255)
      × (get16 (fresh_mem m n type_) length_offset ≡ 0)
      × (fresh_mem m n type_ type_offset ≡ type_)
      × ((j : ℕ) → base_packet_length ≤ j → j < n → fresh_mem m n type_ j ≡ 0)
fresh_mem_lem m n type_ h small =
    (λ j lt. ground arith, ground arith, ground arith, λ j low high. ground arith)

-- For a known packet type `setbgpwrite` returns no error and leaves a fresh message.
pub setbgpwrite_lem :
    (m : Msg) (type_ : ℕ) (f : OpenFlags)
    → bgp_minlengths type_ ≢ 0
    → Returns (setbgpwrite m type_ f) (λ e m'. (e ≡ noerr) × IsFresh m' type_)
unfolding setbgpwrite is_idle
setbgpwrite_lem m type_ f h =
    let (low, high, byte) = minlengths_bounds type_ h in
    let known : (bgp_minlengths type_ == 0) ≡ false = ground (arith, low) in
    let (marker, no_length, typed, rest_zero) =
      fresh_mem_lem m.mem (bgp_minlengths type_) type_ low byte in
    rw known (
      refl,
      record {
        no_error = refl;
        writing = refl;
        not_reading = refl;
        idle = refl;
        not_all = refl;
        in_fastbuf = refl;
        size = refl;
        packet_length = refl;
        marker = marker;
        no_length = no_length;
        typed = typed;
        rest_zero = rest_zero;
      },
    )
