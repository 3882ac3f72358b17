-- ===== src/Pci/Fields.antt =====
-- kernel/acpi/pci.c: the fields of a configuration address.
use silkware.Base.{ℕ, ◌+◌, ◌*◌, ◌/◌, ◌^◌, ◌<◌, ◌≡◌, ◌∙◌, arith, bit_and, bit_or}
use silkware.Bits.Shifts.{bit_or_fields, bit_and_high, bit_or_comm}
use silkware.Pci.{pciaddr}

-- The address with its fields as summands.
abbrev pub fields : ℕ → ℕ → ℕ → ℕ → ℕ
fields bus slot func offset = 2 ^ 31 + bus * 2 ^ 16 + slot * 2 ^ 11 + func * 2 ^ 8 + offset / 4 * 4

-- `x | r` is a sum when `x` is a multiple of `2 ^ k` and `r` fits `k` digits.
bit_or_sum : (k q x r : ℕ) → x ≡ q * 2 ^ k → r < 2 ^ k → bit_or x r ≡ x + r
bit_or_sum k q x r e h = rw e (bit_or_fields k q r h)

bit_or_top : (x : ℕ) → x < 2 ^ 31 → bit_or x 0x80000000 ≡ 2 ^ 31 + x
bit_or_top x h = bit_or_comm x 0x80000000 ∙ bit_or_sum 31 1 0x80000000 x (omega arith) h

-- For a byte of bus, a slot below 32, a function below 8 and a byte of offset, pciaddr has each in a
-- field of its own, with the enable bit above them and the two low bits of the offset cleared.
pub pciaddr-fields :
    (bus slot func offset : ℕ)
    → bus < 256
    → slot < 32
    → func < 8
    → offset < 256
    → pciaddr bus slot func offset ≡ fields bus slot func offset
unfolding pciaddr
pciaddr-fields bus slot func offset b s f o =
    let low : bit_and offset 0xfc ≡ offset / 4 * 4 = bit_and_high 6 2 offset o in
    let e1 = bit_or_sum 16 bus (bus * 2 ^ 16) (slot * 2 ^ 11) (omega arith) (omega arith) in
    let upper = bus * 2 ^ 16 + slot * 2 ^ 11 in
    let e2 = bit_or_sum 11 (bus * 32 + slot) upper (func * 2 ^ 8) (omega arith) (omega arith) in
    let middle = upper + func * 2 ^ 8 in
    let e3 =
      bit_or_sum 8 (bus * 256 + slot * 8 + func) middle (offset / 4 * 4) (omega arith)
        (omega arith) in
    let e4 = bit_or_top (middle + offset / 4 * 4) (omega arith) in
    rw (low, e1, e2, e3, e4) (omega arith)
