-- ===== src/Tests/Bytes.antt =====
-- kernel/mem.c at concrete addresses.
use silkware.Base.{◌≡◌, refl, ltb, if◌then◌else◌}
use silkware.Mem.{Memory, memmove}
use silkware.Mem.Copy.{moved, memmove-moved}

-- Each byte holds its address.
abbrev ramp : Memory
ramp a = a

-- Byte 12 differs from byte 2, and byte 13 from byte 3.
abbrev falling : Memory
falling a = if ltb a 13 then a else 1

overlap : memmove 12 10 5 ramp 14 ≡ 12
unfolding memmove
overlap = refl

memmove-moved_example : memmove 12 10 5 ramp 14 ≡ moved 12 10 5 ramp 14
memmove-moved_example = memmove-moved 12 10 5 ramp 14
