-- ===== src/Bgp/Append.antt =====
-- Appending bytes to the field that is written, when there is room for them (`bgpensure` and the
-- copies through `uptr`, src/ubgp/bgp.c).
use ubgpsuite.Base.{ℕ, ◌+◌, ◌^◌, ◌≤◌, ◌<◌, ◌≡◌, refl, ◌∙◌, true, false, ltb, Mem, copy, arith}
use ubgpsuite.Bgp.State.{Msg, Err, Outcome, Heap, bgpensure}
use ubgpsuite.Bgp.Write.{put_bytes, grow}

-- `m'` is the message with `n` bytes more at `uptr`, and the rest as it was.
pub record Appended (m m' : Msg) (n : ℕ) : Type 0 where
  pub moved : m'.uptr ≡ m.uptr + n
  pub longer : m'.pktlen ≡ m.pktlen + n
  pub same_flags : m'.flags ≡ m.flags
  pub same_bufsiz : m'.bufsiz ≡ m.bufsiz
  pub same_stale : m'.stale ≡ m.stale
  pub same_err : m'.err ≡ m.err
  pub same_start : m'.ustart ≡ m.ustart
  pub below : (j : ℕ) → j < m.uptr → m'.mem j ≡ m.mem j

-- There is room for `n` more bytes without a new block.
pub record HasRoom (m : Msg) (n : ℕ) : Type 0 where
  pub not_stale : m.stale ≡ false
  pub packet_fits : m.pktlen + n ≤ m.bufsiz
  pub write_fits : m.uptr + n ≤ m.bufsiz
  pub small : m.pktlen + n < 2 ^ 16

-- The state after `n` bytes of `src` are written.
abbrev pub wrote : Msg → Mem → ℕ → Msg
wrote m src n = record m {
  mem = copy m.mem m.uptr src 0 n;
  uptr = m.uptr + n;
  pktlen = grow m.pktlen n;
}

pub put_bytes_run :
    (m : Msg) (src : Mem) (n : ℕ) (k : Msg → Outcome Err)
    → HasRoom m n
    → put_bytes m src n k ≡ k (wrote m src n)
unfolding put_bytes
put_bytes_run m src n k room =
    let fits : ltb m.bufsiz (m.uptr + n) ≡ false = ground (arith, room.write_fits) in
    rw (room.not_stale, fits) refl

-- No new block is asked for when there is room.
pub bgpensure_room : (heap : Heap) (m : Msg) (n : ℕ) → HasRoom m n → bgpensure heap m n ≡ (m, true)
unfolding bgpensure
bgpensure_room heap m n room =
    let enough : ltb m.bufsiz (n + m.pktlen) ≡ false = ground (arith, room.packet_fits) in
    rw enough refl

pub Appended-wrote : (m : Msg) (src : Mem) (n : ℕ) → HasRoom m n → Appended m (wrote m src n) n
Appended-wrote m src n room = record {
  moved = refl;
  longer = ground (arith, room.small);
  same_flags = refl;
  same_bufsiz = refl;
  same_stale = refl;
  same_err = refl;
  same_start = refl;
  below = λ j h. ground arith;
}

pub HasRoom-wrote : (m : Msg) (src : Mem) (n k : ℕ) → HasRoom m (n + k) → HasRoom (wrote m src n) k
HasRoom-wrote m src n k room = record {
  not_stale = room.not_stale;
  packet_fits = ground (arith, room.packet_fits, room.small);
  write_fits = ground (arith, room.write_fits);
  small = ground (arith, room.small);
}

pub HasRoom-less : (m : Msg) (n k : ℕ) → HasRoom m (n + k) → HasRoom m n
HasRoom-less m n k room = record {
  not_stale = room.not_stale;
  packet_fits = ground (arith, room.packet_fits);
  write_fits = ground (arith, room.write_fits);
  small = ground (arith, room.small);
}

pub Appended-trans :
    {m m' m'' : Msg} {n k : ℕ} → Appended m m' n → Appended m' m'' k → Appended m m'' (n + k)
Appended-trans a b = record {
  moved = rw (b.moved, a.moved) (omega arith);
  longer = rw (b.longer, a.longer) (omega arith);
  same_flags = b.same_flags ∙ a.same_flags;
  same_bufsiz = b.same_bufsiz ∙ a.same_bufsiz;
  same_stale = b.same_stale ∙ a.same_stale;
  same_err = b.same_err ∙ a.same_err;
  same_start = b.same_start ∙ a.same_start;
  below = λ j h. b.below j (rw (a.moved) (omega arith)) ∙ a.below j h;
}

pub Appended-none : (m : Msg) → Appended m m 0
Appended-none m = record {
  moved = omega arith;
  longer = omega arith;
  same_flags = refl;
  same_bufsiz = refl;
  same_stale = refl;
  same_err = refl;
  same_start = refl;
  below = λ j h. refl;
}
