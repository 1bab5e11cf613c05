-- ===== src/Filter/Opcodes.antt =====
-- The opcodes of the filter machine (src/ubgp/filterintrin.h, src/ubgp/vm_opcodes.h), and which of
-- them an instruction predicts (src/ubgp/filterpacket.c).
use ubgpsuite.Base.{ℕ, Bool, true, false, ◌==◌, if◌then◌else◌}

-- The opcodes, in the order of their numbers from 0 on.
pub data Opcode : Type 0 where
  nop blk endblk load loadk unpack exarg store discard not_ cpass cfail settle hasattr : Opcode
  exact subnet supernet related pfxcontains addrcontains ascontains : Opcode
  aspmatch aspstarts aspends aspexact commexact : Opcode
  call settrie settrie6 clrtrie clrtrie6 pfxcmp addrcmp ascmp sigill : Opcode

-- `vm_opcode_table`.
unfoldable pub vm_opcode_table : ℕ → Opcode
vm_opcode_table n =
    if n == 0
    then nop
    else if n == 1
    then blk
    else if n == 2
    then endblk
    else if n == 3
    then load
    else if n == 4
    then loadk
    else if n == 5
    then unpack
    else if n == 6
    then exarg
    else if n == 7
    then store
    else if n == 8
    then discard
    else if n == 9
    then not_
    else if n == 10
    then cpass
    else if n == 11
    then cfail
    else if n == 12
    then settle
    else if n == 13
    then hasattr
    else if n == 14
    then exact
    else if n == 15
    then subnet
    else if n == 16
    then supernet
    else if n == 17
    then related
    else if n == 18
    then pfxcontains
    else if n == 19
    then addrcontains
    else if n == 20
    then ascontains
    else if n == 21
    then aspmatch
    else if n == 22
    then aspstarts
    else if n == 23
    then aspends
    else if n == 24
    then aspexact
    else if n == 25
    then commexact
    else if n == 26
    then call
    else if n == 27
    then settrie
    else if n == 28
    then settrie6
    else if n == 29
    then clrtrie
    else if n == 30
    then clrtrie6
    else if n == 31
    then pfxcmp
    else if n == 32
    then addrcmp
    else if n == 33
    then ascmp
    else sigill

-- What PREDICT looks for after an instruction.
abbrev pub predicts : Opcode → Opcode → Bool
predicts endblk cpass = true
predicts endblk not_ = true
predicts exarg loadk = true
predicts exarg load = true
predicts exarg call = true
predicts not_ cfail = true
predicts not_ cpass = true
predicts hasattr not_ = true
predicts _ _ = false
