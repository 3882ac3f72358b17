-- ===== src/Acpi.antt =====
-- kernel/acpi/acpi.c: the search for a table, which is read through its mapping. `acpi64` and the two
-- addresses of `xsdp` are in `Root`.
use silkware.Base.{
  length, ℕ, zero, suc, ◌+◌, ◌*◌, ◌-◌, ◌/◌, ◌^◌, Bool, ◌==◌, if◌then◌else◌, List, [], ◌∷◌, u64,
  sub64,
}
use silkware.Base.Exec.{Exec, done, fault, ◌>>=◌, ◌>>◌, assert}
use silkware.Map.{same_bytes}

-- The calls of kernel/arch/x86_64/paging.c, with the flags PAGE_PRESENT | PAGE_WRITABLE | PAGE_NX, and the
-- byte that a load at an address finds through the mappings.
pub record Mapper {ℓ} (S : Type ℓ) : Type ℓ where
  pub map_anon : ℕ → ℕ → S → Exec (ℕ × S)
  pub unmap_pages : ℕ → ℕ → S → Exec S
  pub load : ℕ → S → ℕ

-- Where acpispec/tables.h puts what the code reads: the size of a header, and the offsets of its
-- signature and its length and of the two addresses in the FADT.
pub record TableSpec : Type 0 where
  pub header_size : ℕ
  pub signature : ℕ
  pub length : ℕ
  pub x_dsdt : ℕ
  pub dsdt : ℕ

pub record Root : Type 0 where
  pub acpi64 : Bool
  pub xsdt : ℕ
  pub rsdt : ℕ

-- `xsdt`, which is 0 while it is NULL, and the mappings.
pub record Acpi {ℓ} (S : Type ℓ) : Type ℓ where
  pub xsdt : ℕ
  pub maps : S

-- `k` bytes of memory, and the number that they stand for.
unfoldable pub bytes_at : (ℕ → ℕ) → ℕ → ℕ → List ℕ
bytes_at mem zero a = []
bytes_at mem (suc k) a = mem a ∷ bytes_at mem k (a + 1)

unfoldable pub word_at : (ℕ → ℕ) → ℕ → ℕ → ℕ
word_at mem zero a = 0
word_at mem (suc k) a = mem a + 256 * word_at mem k (a + 1)

-- The bytes of "DSDT", "FACP" and "SDT".
abbrev pub dsdt_sig : List ℕ
dsdt_sig = 0x44 ∷ 0x53 ∷ 0x44 ∷ 0x54 ∷ []

abbrev pub facp_sig : List ℕ
facp_sig = 0x46 ∷ 0x41 ∷ 0x43 ∷ 0x50 ∷ []

abbrev pub sdt_sig : List ℕ
sdt_sig = 0x53 ∷ 0x44 ∷ 0x54 ∷ []

module _ {ℓ} {S : Type ℓ} (io : Mapper S) (spec : TableSpec) (root : Root) where
  -- The length in the header of a table that is mapped at an address.
  unfoldable pub length_of : ℕ → S → ℕ
  unfolding word_at
  length_of at s = word_at (λ b. io.load b s) 4 (at + spec.length)

  -- Mapping a table for its length, and then the whole of it: the address of the mapping, the length
  -- and the state.
  unfoldable pub map_table : ℕ → S → Exec (ℕ × ℕ × S)
  unfolding length_of
  map_table phys s = io.map_anon phys spec.header_size s >>= λ (t : ℕ × S).
      let length = length_of t.0 t.1 in
      io.unmap_pages t.0 spec.header_size t.1 >>= λ (s' : S).
      io.map_anon phys length s' >>= λ (u : ℕ × S). done (u.0, length, u.1)

  unfoldable pub root_phys : ℕ
  root_phys = if root.acpi64 then root.xsdt else root.rsdt

  -- The physical address in entry `i` of the root table, and the number of entries.
  unfoldable pub entry_phys : ℕ → Acpi S → ℕ
  unfolding word_at
  entry_phys i a =
      let p = a.xsdt + spec.header_size in
      let mem : ℕ → ℕ = λ b. io.load b a.maps in
      if root.acpi64 then word_at mem 8 (p + 8 * i) else word_at mem 4 (p + 4 * i)

  unfoldable pub n_entries : Acpi S → ℕ
  unfolding length_of
  n_entries a = sub64 (length_of a.xsdt a.maps) spec.header_size / (if root.acpi64 then 8 else 4)

  -- Whether the bytes of a signature stand at an address.
  unfoldable pub has_sig : List ℕ → ℕ → S → Bool
  unfolding bytes_at same_bytes
  has_sig sig at s = same_bytes sig (bytes_at (λ b. io.load b s) (length sig) at)

  -- `if (xsdt == NULL) ...`
  unfoldable pub open_root : Acpi S → Exec (Acpi S)
  unfolding map_table root_phys has_sig
  open_root a =
      let opened = map_table root_phys a.maps >>= λ (t : ℕ × ℕ × S).
      assert (has_sig sdt_sig (t.0 + spec.signature + 1) t.2)
      >> done (record { xsdt = t.0; maps = t.2 }) in
      if a.xsdt == 0 then opened else done a

  -- The loop of `acpi_find` from entry `i`, with `left` entries to go: the address of the table, 0 for
  -- NULL, and the state.
  unfoldable pub find_from : ℕ → List ℕ → ℕ → ℕ → ℕ → Acpi S → Exec (ℕ × Acpi S)
  unfolding map_table entry_phys has_sig
  find_from zero sig index i count a = done (0, a)
  find_from (suc left) sig index i count a =
      map_table (entry_phys i a) a.maps >>= λ (t : ℕ × ℕ × S).
      let count' = if has_sig sig (t.0 + spec.signature) t.2 then u64 (count + 1) else count in
      let again = λ (s : S). find_from left sig index (i + 1) count' (record a { maps = s }) in
      if count' == index
      then done (t.0, record a { maps = t.2 })
      else if t.0 == a.xsdt
      then again t.2
      else (io.unmap_pages t.0 t.1 t.2 >>= again)

  -- `acpi_find` for another table than the DSDT; `count` starts at `-1`.
  unfoldable pub find_table : List ℕ → ℕ → Acpi S → Exec (ℕ × Acpi S)
  unfolding open_root find_from n_entries
  find_table sig index a =
      open_root a >>= λ (b : Acpi S). find_from (n_entries b) sig index 0 (2 ^ 64 - 1) b

  -- The FADT stays mapped. Reading it faults when there is none.
  unfoldable pub acpi_find : List ℕ → ℕ → Acpi S → Exec (ℕ × Acpi S)
  unfolding find_table map_table word_at same_bytes
  acpi_find sig index a =
      let dsdt = find_table facp_sig 0 a >>= λ (f : ℕ × Acpi S).
      let mem : ℕ → ℕ = λ b. io.load b f.1.maps in
      let phys =
        if root.acpi64
        then word_at mem 8 (f.0 + spec.x_dsdt)
        else word_at mem 4 (f.0 + spec.dsdt) in
      if f.0 == 0
      then fault
      else (map_table phys f.1.maps >>= λ (t : ℕ × ℕ × S). done (t.0, record f.1 { maps = t.2 })) in
      if same_bytes sig dsdt_sig then dsdt else find_table sig index a
