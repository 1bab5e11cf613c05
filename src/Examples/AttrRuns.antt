-- ===== src/Examples/AttrRuns.antt =====
-- Attributes: an AS path, a community attribute and a multiprotocol attribute, all empty at first.
use ubgpsuite.Base.{
  ℕ, ◌<◌, ◌*◌, ◌+◌, ◌%◌, ◌^◌, ◌≡◌, refl, ◌==◌, if◌then◌else◌, Mem, put8, put32, get32, copy,
}
use ubgpsuite.NetAddr.{inet, Netaddr}
use ubgpsuite.Attr.Header.{
  is_extended, put_attr_len, getorigin, setorigin, getoriginatorid, setoriginatorid, getnexthop,
  setnexthop, getmultiexitdisc, setmultiexitdisc, getlocalpref, setlocalpref,
}
use ubgpsuite.Attr.Build.{putasseg32, write_seg32, putcommunities, appendcommunities}
use ubgpsuite.Attr.Append.{Grows, putasseg32_appends}
use ubgpsuite.Attr.Communities.{putcommunities_lem}
use ubgpsuite.Attr.Fields.{fields_roundtrip}

-- An attribute with a code and a length, without the extended length flag.
abbrev attribute : ℕ → ℕ → Mem
attribute code len j = if j == 1 then code else if j == 2 then len else 0

abbrev two_ases : ℕ → ℕ
two_ases i = if i == 0 then 65536 else 174

abbrev with_segment : Mem
with_segment = put_attr_len (write_seg32 (attribute 2 0) 3 2 two_ases 2) 0 10

putasseg32_example :
    Grows (attribute 2 0) 0 (2 * 4 + 2) with_segment
    × (with_segment 3 ≡ 2 % 256)
    × (with_segment (3 + 1) ≡ 2)
    × ((i : ℕ) → i < 2 → get32 with_segment (3 + 2 + 4 * i) ≡ two_ases i % 2 ^ 32)
unfolding putasseg32 is_extended
putasseg32_example = putasseg32_appends (attribute 2 0) 0 2 two_ases 2 with_segment refl

-- 255 bytes leave no room for a community.
abbrev with_community : Mem
with_community = put_attr_len (copy (attribute 8 0) 3 (put32 (λ j. 0) 0 65535) 0 4) 0 4

putcommunities_example :
    Grows (attribute 8 0) 0 4 with_community × (get32 with_community (3 + 0) ≡ 65535 % 2 ^ 32)
unfolding putcommunities appendcommunities is_extended
putcommunities_example = putcommunities_lem (attribute 8 0) 0 65535 with_community refl

fields_example :
    (getorigin (setorigin (attribute 1 1) 0 2) 0 ≡ 2 % 2 ^ 8)
    × (getoriginatorid (setoriginatorid (attribute 1 1) 0 2) 0 ≡ 2 % 2 ^ 32)
    × (getnexthop (setnexthop (attribute 1 1) 0 2) 0 ≡ 2 % 2 ^ 32)
    × (getmultiexitdisc (setmultiexitdisc (attribute 1 1) 0 2) 0 ≡ 2 % 2 ^ 32)
    × (getlocalpref (setlocalpref (attribute 1 1) 0 2) 0 ≡ 2 % 2 ^ 32)
fields_example = fields_roundtrip (attribute 1 1) 0 2

abbrev with_large : Mem
with_large =
    put_attr_len (copy (attribute 32 0) 3 (put32 (put32 (put32 (λ j. 0) 0 64496) 4 1) 8 2) 0 12) 0
      12

-- 198.51.100.0/24.
abbrev prefix : Netaddr
prefix = record {
  family = inet;
  bitlen = 24;
  bytes = λ j. if j == 0 then 198 else if j == 1 then 51 else 100;
}

abbrev with_prefix : Mem
with_prefix = put_attr_len (copy (put8 (attribute 15 3) 6 24) 7 prefix.bytes 0 3) 0 7

abbrev loopback : Mem
loopback j = if j == 15 then 1 else 0

abbrev with_nexthop : Mem
with_nexthop = put_attr_len (put8 (copy (attribute 14 4) 7 loopback 0 16) 6 16) 0 20

abbrev with_aggregator : Mem
with_aggregator = put32 (put32 (attribute 7 8) 3 65536) 7 3221225985
