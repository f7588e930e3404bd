-- ===== src/Probe/Tests.antt =====
-- crates/hardware-probe/src/lib.rs: texts and numbers at concrete inputs.
use tensorgrid.Base.{◌≡◌, refl, none, some}
use tensorgrid.Types.{amd, unknown}
use tensorgrid.Probe.{vendor_of}
use tensorgrid.Probe.Numbers.{parse_u64, parse_digits}

a_number : parse_u64 "+4294967296" ≡ some 4294967296
unfolding parse_u64 parse_digits
a_number = refl

too_large : parse_u64 "18446744073709551616" ≡ none
unfolding parse_u64 parse_digits
too_large = refl

a_vendor : vendor_of "ATI Technologies" ≡ amd
a_vendor = refl

another_vendor : vendor_of "Advanced Micro Devices, Inc." ≡ unknown
another_vendor = refl
