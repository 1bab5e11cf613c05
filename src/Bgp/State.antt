-- ===== src/Bgp/State.antt =====
-- The state of a BGP message (`ubgp_msg_s`, src/ubgp/bgp.h) and the checks that its operations begin
-- with (src/ubgp/bgp.c). A pointer into `buf` is its offset; NULL is offset 0, which no pointer into a
-- field ever is, since a packet starts with its marker.
use ubgpsuite.Base.{
  ℕ, ◌+◌, Bool, true, false, ◌||◌, ltb, ◌==◌, if◌then◌else◌, if_true, if_false, ◌≡◌, refl, ap, Mem,
  copy, Option, none, some, arith,
}
use ubgpsuite.NetAddr.{Family, Netaddrap}

-- Packet types.
abbrev pub bgp_open : ℕ
bgp_open = 1

abbrev pub bgp_update : ℕ
bgp_update = 2

abbrev pub bgp_notification : ℕ
bgp_notification = 3

abbrev pub bgp_keepalive : ℕ
bgp_keepalive = 4

abbrev pub bgp_route_refresh : ℕ
bgp_route_refresh = 5

abbrev pub bgp_close : ℕ
bgp_close = 255

-- Offsets of the fields of a packet.
abbrev pub length_offset : ℕ
length_offset = 16

abbrev pub type_offset : ℕ
type_offset = length_offset + 2

abbrev pub base_packet_length : ℕ
base_packet_length = type_offset + 1

abbrev pub version_offset : ℕ
version_offset = type_offset + 1

abbrev pub my_as_offset : ℕ
my_as_offset = version_offset + 1

abbrev pub hold_time_offset : ℕ
hold_time_offset = my_as_offset + 2

abbrev pub iden_offset : ℕ
iden_offset = hold_time_offset + 2

abbrev pub params_length_offset : ℕ
params_length_offset = iden_offset + 4

abbrev pub params_offset : ℕ
params_offset = params_length_offset + 1

abbrev pub bgpbufsiz : ℕ
bgpbufsiz = 4096

abbrev pub bgpgrowstep : ℕ
bgpgrowstep = 256

abbrev pub uint16_max : ℕ
uint16_max = 65535

abbrev pub offset_not_found : ℕ
offset_not_found = 0xffff

pub data Err : Type 0 where
  noerr eio einvop enomem ebadhdr ebadtype ebadparamlen ebadwdrwn ebadattr ebadnlri : Err

-- `err != BGP_ENOERR`.
abbrev pub is_err : Err → Bool
is_err noerr = false
is_err _ = true

-- The status flags, one field for each bit of `flags`.
pub record Flags : Type 0 where
  pub sh : Bool
  pub rd : Bool
  pub wr : Bool
  pub pm : Bool
  pub withdrn : Bool
  pub allwithdrn : Bool
  pub pattr : Bool
  pub nlri : Bool
  pub allnlri : Bool
  pub aspath : Bool
  pub realaspath : Bool
  pub nhop : Bool
  pub community : Bool
  pub addpath : Bool
  pub asn32bit : Bool
  pub presofftab : Bool

abbrev pub no_flags : Flags
no_flags = record {
  sh = false;
  rd = false;
  wr = false;
  pm = false;
  withdrn = false;
  allwithdrn = false;
  pattr = false;
  nlri = false;
  allnlri = false;
  aspath = false;
  realaspath = false;
  nhop = false;
  community = false;
  addpath = false;
  asn32bit = false;
  presofftab = false;
}

-- The fields of an open message.
pub record Open : Type 0 where
  pub version : ℕ
  pub hold_time : ℕ
  pub my_as : ℕ
  pub iden : ℕ

-- One entry of an AS path.
pub record AsPathent : Type 0 where
  pub as_size : ℕ
  pub type : ℕ
  pub segno : ℕ
  pub as_number : ℕ

-- The iteration over an AS path. `ascount` is a 16-bit integer and `segno` one of 32 bits, in which
-- -1 is the largest value.
pub record PathIter : Type 0 where
  pub asptr : ℕ
  pub asend : ℕ
  pub as4ptr : ℕ
  pub as4end : ℕ
  pub seglen : ℕ
  pub segi : ℕ
  pub ascount : ℕ
  pub asp : AsPathent

-- The iteration over next hops. `in_nhbuf` says that `nhptr` and `nhend` point into `nhbuf` and not
-- into the packet.
pub record HopIter : Type 0 where
  pub in_nhbuf : Bool
  pub nhptr : ℕ
  pub nhend : ℕ
  pub mpnhptr : ℕ
  pub mpnhend : ℕ
  pub mpfamily : Family
  pub mpbitlen : ℕ
  pub nhbuf : Mem

-- `mem` is the block that `buf` points to, of `bufsiz` bytes, and `fast` says that it is `fastbuf`.
-- `stale` says that `uptr` and `ustart` point into a block that `buf` has since been moved from.
-- `pres` is the preserved buffer.
pub record Msg : Type 0 where
  pub flags : Flags
  pub pktlen : ℕ
  pub bufsiz : ℕ
  pub err : Err
  pub fast : Bool
  pub stale : Bool
  pub mem : Mem
  pub pptr : ℕ
  pub params : ℕ
  pub ustart : ℕ
  pub uptr : ℕ
  pub uend : ℕ
  pub pfxbuf : Netaddrap
  pub offtab : ℕ → ℕ
  pub pres : Mem
  pub path : PathIter
  pub hops : HopIter
  pub ccode : ℕ

-- What a call does: it returns a value and the new state, or it accesses memory out of bounds.
pub data Outcome {ℓ} (A : Type ℓ) : Type ℓ where
  ret : A → Msg → Outcome A
  fault : Outcome A

-- Run one part of a function after another.
infixl 5 ◌>>=◌
abbrev pub ◌>>=◌ {ℓ κ} : {A : Type ℓ} {B : Type κ} → Outcome A → (A → Msg → Outcome B) → Outcome B
ret a m >>= f = f a m
fault >>= f = fault

pub bind_assoc {ℓ κ μ} :
    {A : Type ℓ} {B : Type κ} {C : Type μ} (o : Outcome A) (f : A → Msg → Outcome B)
    → (g : B → Msg → Outcome C) → ((o >>= f) >>= g) ≡ (o >>= λ a m. f a m >>= g)
bind_assoc (ret a m) f g = refl
bind_assoc fault f g = refl

-- The call returns, with a result and a state that satisfy `P`.
abbrev pub Returns {ℓ} : {A : Type ℓ} → Outcome A → (A → Msg → Type 0) → Type 0
Returns (ret a m) P = P a m
Returns fault P = ⊥

pub Returns-bind {ℓ κ} :
    {A : Type ℓ} {B : Type κ} (o : Outcome A) (f : A → Msg → Outcome B) (P : A → Msg → Type 0)
    → (Q : B → Msg → Type 0) → Returns o P
    → ((a : A) (m : Msg) → P a m → Returns (f a m) Q)
    → Returns (o >>= f) Q
Returns-bind (ret a m) f P Q h k = k a m h
Returns-bind fault f P Q h k = absurd h

pub Returns-map {ℓ} :
    {A : Type ℓ} (o : Outcome A) (P Q : A → Msg → Type 0)
    → Returns o P
    → ((a : A) (m : Msg) → P a m → Q a m)
    → Returns o Q
Returns-map (ret a m) P Q h k = k a m h
Returns-map fault P Q h k = absurd h

-- `msg->err = (msg->err != BGP_ENOERR) ? msg->err : e`.
abbrev pub keep_err : Err → Msg → Msg
keep_err e m = if is_err m.err then m else record m { err = e }

abbrev pub type_of : Msg → ℕ
type_of m = m.mem type_offset

-- The macros CHECKFLAGSR, CHECKTYPER and CHECKTYPEANDFLAGSR: `k` is the rest of the function, and
-- `r` is what it returns on a failed check.
abbrev pub check_flags_r {ℓ} :
    {A : Type ℓ} → (Flags → Bool) → (Err → A) → Msg → (Msg → Outcome A) → Outcome A
check_flags_r want r m k =
    let m' = if want m.flags then m else keep_err einvop m in
    if is_err m'.err then ret (r m'.err) m' else k m'

abbrev pub check_type_r {ℓ} : {A : Type ℓ} → ℕ → (Err → A) → Msg → (Msg → Outcome A) → Outcome A
check_type_r ty r m k =
    let m' = if type_of m == ty then m else keep_err einvop m in
    if is_err m'.err then ret (r m'.err) m' else k m'

abbrev pub check_type_flags_r {ℓ} :
    {A : Type ℓ} → ℕ → (Flags → Bool) → (Err → A) → Msg → (Msg → Outcome A) → Outcome A
check_type_flags_r ty want r m k =
    let m' = if type_of m == ty then m else keep_err einvop m in
    let m'' = if want m'.flags then m' else keep_err einvop m' in
    if is_err m''.err then ret (r m''.err) m'' else k m''

-- A check that holds, with no error so far, goes on with the rest.
pub check_flags_r_ok {ℓ} :
    {A : Type ℓ} (want : Flags → Bool) (r : Err → A) (m : Msg) (k : Msg → Outcome A)
    → want m.flags ≡ true
    → m.err ≡ noerr
    → check_flags_r want r m k ≡ k m
check_flags_r_ok want r m k h ok =
    let same = if_true (want m.flags) m (keep_err einvop m) h in
    rw same (if_false (is_err m.err) _ _ (ap is_err ok))

pub check_type_r_ok {ℓ} :
    {A : Type ℓ} (ty : ℕ) (r : Err → A) (m : Msg) (k : Msg → Outcome A)
    → type_of m ≡ ty
    → m.err ≡ noerr
    → check_type_r ty r m k ≡ k m
check_type_r_ok ty r m k h ok =
    let same = if_true (type_of m == ty) m (keep_err einvop m) (ground (arith, h)) in
    rw same (if_false (is_err m.err) _ _ (ap is_err ok))

pub check_type_flags_r_ok {ℓ} :
    {A : Type ℓ} (ty : ℕ) (want : Flags → Bool) (r : Err → A) (m : Msg) (k : Msg → Outcome A)
    → type_of m ≡ ty
    → want m.flags ≡ true
    → m.err ≡ noerr
    → check_type_flags_r ty want r m k ≡ k m
check_type_flags_r_ok ty want r m k typed h ok =
    let same = if_true (type_of m == ty) m (keep_err einvop m) (ground (arith, typed)) in
    rw same (check_flags_r_ok want r m k h ok)

-- CHECKFLAGS, CHECKTYPE and CHECKTYPEANDFLAGS return the error itself.
abbrev pub check_flags : (Flags → Bool) → Msg → (Msg → Outcome Err) → Outcome Err
check_flags want m k = check_flags_r want (λ e. e) m k

abbrev pub check_type : ℕ → Msg → (Msg → Outcome Err) → Outcome Err
check_type ty m k = check_type_r ty (λ e. e) m k

abbrev pub check_type_flags : ℕ → (Flags → Bool) → Msg → (Msg → Outcome Err) → Outcome Err
check_type_flags ty want m k = check_type_flags_r ty want (λ e. e) m k

-- Store `n` bytes of `src` at `buf[off]`: a fault when they do not fit the block.
abbrev pub store {ℓ} : {A : Type ℓ} → Msg → ℕ → Mem → ℕ → (Msg → Outcome A) → Outcome A
store m off src n k =
    if ltb m.bufsiz (off + n) then fault else k (record m { mem = copy m.mem off src 0 n })

-- The same through `uptr` or `ustart`, which must still point into `buf`.
abbrev pub store_at {ℓ} : {A : Type ℓ} → Msg → ℕ → Mem → ℕ → (Msg → Outcome A) → Outcome A
store_at m off src n k = if m.stale then fault else store m off src n k

-- The allocator, which is not part of the program: whether `malloc` has a block of a size; what
-- `realloc` answers for a block of the first size grown to the second, which is nothing (NULL) or
-- whether the block moved; and what fresh memory holds.
pub record Heap : Type 0 where
  pub malloc : ℕ → Bool
  pub realloc : ℕ → ℕ → Option Bool
  pub fresh : Mem

-- `bgpensure`: room for `len` more bytes. `fastbuf` is never extended in place: its contents are
-- copied to a new block.
unfoldable pub bgpensure : Heap → Msg → ℕ → Msg × Bool
bgpensure heap m len =
    let need = len + m.pktlen in
    let step = need + bgpgrowstep in
    let size = if ltb uint16_max step then uint16_max else step in
    if ltb m.bufsiz need
    then elim (heap.realloc m.bufsiz size) [
      | none ↦ (record m { err = enomem }, false)
      | some moved ↦ (
        record m {
          mem = if m.fast then copy heap.fresh 0 m.mem 0 m.pktlen else m.mem;
          bufsiz = size;
          stale = m.stale || m.fast || moved;
          fast = false;
        },
        true,
      )
    ]
    else (m, true)
