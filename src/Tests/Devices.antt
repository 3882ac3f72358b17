-- ===== src/Tests/Devices.antt =====
-- A configuration space and its accesses at concrete values.
use silkware.Base.{
  ℕ, ◌+◌, ◌-◌, ◌*◌, ◌/◌, ◌^◌, ◌<◌, ◌≡◌, refl, inr, ltb, ◌==◌, if◌then◌else◌, u8, true, false, arith,
}
use silkware.Ports.{Bus}
use silkware.Pci.{pci_read, pci_write}
use silkware.Pci.Space.{of_bytes, IsConfigSpace, lane, IsWritten, pci_read-pci_write}
use silkware.Pci.Fields.{fields}
use silkware.Laihost.{laihost_outw, laihost_inw}

-- The latched address and the bytes.
abbrev Device : Type 0
Device = ℕ × (ℕ → ℕ)

abbrev put : (ℕ → ℕ) → ℕ → ℕ → ℕ → ℕ → ℕ
put bytes from k v b =
    if ltb b from
    then bytes b
    else if ltb b (from + k)
    then u8 (v / 2 ^ (8 * (b - from)))
    else bytes b

abbrev device_output : ℕ → ℕ → ℕ → Device → Device
device_output width port v s =
    if port == 0xcf8 then (v, s.1) else (s.0, put s.1 (s.0 + (port - 0xcfc)) width v)

abbrev device : Bus Device
device = record {
  input = λ width port s. (of_bytes width (λ (j : ℕ). s.1 (s.0 + (port - 0xcfc) + j)), s);
  output = device_output;
}

put_at :
    (bytes : ℕ → ℕ) (from k v j : ℕ) → j < k → put bytes from k v (from + j) ≡ u8 (v / 2 ^ (8 * j))
put_at bytes from k v j h =
    let e : from + j - from ≡ j = omega arith in
    let low : ltb (from + j) from ≡ false = ground arith in
    let high : ltb (from + j) (from + k) ≡ true = ground arith in rw (low, high, e) refl

data_index : (i : ℕ) → 0xcfc + i - 0xcfc ≡ i
data_index i = omega arith

not_latch : (i : ℕ) → (0xcfc + i == 0xcf8) ≡ false
not_latch i = ground arith

device-IsConfigSpace : IsConfigSpace device (λ s. s.0) (λ s. s.1) (λ b. Unit)
device-IsConfigSpace = record {
  latch = λ a s on low. refl;
  untouched = λ a b s. refl;
  written = λ k i v j s on h l p. rw (not_latch i, data_index i) (put_at s.1 (s.0 + i) k v j l);
  read = λ k i s on h. rw (data_index i) refl;
}

abbrev blank : Device
blank = (0, λ b. 0)

-- A write of 32 bits of which only the low byte comes back.
pci_read-pci_write_example :
    IsWritten device
      (λ s. s.0)
      (λ s. s.1)
      (λ b. Unit)
      device-IsConfigSpace
      (fields 0 3 1 0x10)
      (lane 0x10 4)
      4
      0x12345678
      (pci_write device 0 3 1 0x10 0x12345678 4 blank)
      (pci_read device 0 3 1 0x10 4 (pci_write device 0 3 1 0x10 0x12345678 4 blank)).0
pci_read-pci_write_example =
    pci_read-pci_write device (λ s. s.0) (λ s. s.1) (λ b. Unit) device-IsConfigSpace 0 3 1 0x10
      0x12345678 4 blank (omega arith) (omega arith) (omega arith) (omega arith) (inr (inr refl))
      (λ j h. tt)

-- laihost_outw writes one byte, so laihost_inw does not give back what was written.
outw_cut : (laihost_inw device 0xcfe (laihost_outw device 0xcfe 0x1234 blank)).0 ≡ 0x34
unfolding laihost_inw laihost_outw
outw_cut = refl
