-- ===== src/Apic/Records.antt =====
-- kernel/arch/x86_64/apic.c: the walk over the records of the interrupt controllers.
use silkware.Base.{ℕ, zero, suc, ◌+◌, ◌^◌, ◌<◌, ◌≤◌, ◌≡◌, List, [], ◌∷◌, length, arith}
use silkware.Base.Exec.{Exec, done}
use silkware.Mem.{Memory}
use silkware.Apic.{Madt, Lapic, load64, count_record, walk_records, apic_start, apic_init}
use silkware.Ports.{Bus}
use silkware.Hpet.{Hpet}
use silkware.Base.{some, ◌∙◌}
use silkware.Base.Exec.{panicked, out_of_fuel, assert, ◌>>◌, ◌>>=◌}
use silkware.Base.{
  refl, Bool, true, false, not, ◌&&◌, ◌||◌, ◌==◌, if◌then◌else◌, bit_and, ltb, u16, u64, page_size,
  ap, Bool-cases, inl, inr, ◌*◌,
}
use silkware.Map.{sign_extend}

-- From `p` the records lie at `ps`, each with the length that its second byte says, up to `limit`.
abbrev pub Records : Memory → ℕ → ℕ → List ℕ → Type 0
Records m limit p [] = limit ≡ p
Records m limit p (q ∷ ps) =
    (p ≡ q) × (0 < m (q + 1)) × (m (q + 1) < 128) × Records m limit (q + m (q + 1)) ps

-- Going over the records, in order.
abbrev pub count_records : Memory → List ℕ → ℕ × ℕ → ℕ × ℕ
count_records m [] acc = acc
count_records m (q ∷ ps) acc = count_records m ps (count_record m q acc)

Records-le : (m : Memory) (limit p : ℕ) (ps : List ℕ) → Records m limit p ps → p ≤ limit
Records-le m limit p [] h = omega (arith, h)
Records-le m limit p (q ∷ ps) (e, pos, small, rest) =
    omega (arith, e, pos, Records-le m limit (q + m (q + 1)) ps rest)

next_record : (q len : ℕ) → len < 128 → q + len < 2 ^ 64 → u64 (q + sign_extend len) ≡ q + len
unfolding sign_extend
next_record q len small h = ground arith

-- More rounds than there are records are enough for the loop to go over all of them.
walk_records-count :
    (fuel : ℕ) (m : Memory) (limit p : ℕ) (ps : List ℕ) (acc : ℕ × ℕ)
    → limit < 2 ^ 64
    → length ps < fuel
    → Records m limit p ps
    → walk_records fuel m limit p acc ≡ done (count_records m ps acc)
unfolding walk_records
walk_records-count zero m limit p ps acc top h r = absurd (omega arith)
walk_records-count (suc fuel) m limit p [] acc top h r =
    let out : ltb p limit ≡ false = ground arith in rw out refl
walk_records-count (suc fuel) m limit p (q ∷ ps) acc top h (e, pos, small, rest) =
    let le = Records-le m limit (q + m (q + 1)) ps rest in
    let inside : ltb p limit ≡ true = ground arith in
    let next = next_record q (m (q + 1)) small (omega arith) in
    rw (inside, e, next)
      (walk_records-count fuel m limit (q + m (q + 1)) ps (count_record m q acc) top (omega arith)
        rest)

-- The record is a controller that is enabled or can be enabled.
abbrev pub is_core : Memory → ℕ → Bool
is_core m q = m q == 0 && (not (bit_and (m (q + 4)) 1 == 0) || not (bit_and (m (q + 4)) 2 == 0))

abbrev pub cores : Memory → List ℕ → ℕ
cores m [] = 0
cores m (q ∷ ps) = (if is_core m q then 1 else 0) + cores m ps

count_record-core :
    (m : Memory) (q : ℕ) (acc : ℕ × ℕ)
    → u16 acc.0 ≡ acc.0
    → (count_record m q acc).0 ≡ u16 ((if is_core m q then 1 else 0) + acc.0)
unfolding count_record
count_record-core m q acc h = let e : q + 2 + 2 ≡ q + 4 = omega arith in rw e (ground arith)

count_records-cores :
    (m : Memory) (ps : List ℕ) (acc : ℕ × ℕ)
    → u16 acc.0 ≡ acc.0
    → (count_records m ps acc).0 ≡ u16 (cores m ps + acc.0)
count_records-cores m [] acc h = omega (arith, h)
count_records-cores m (q ∷ ps) acc h =
    let first = count_record-core m q acc h in
    let rest = count_records-cores m ps (count_record m q acc) (omega (arith, first)) in
    omega (arith, first, rest)

asserted {ℓ} : {A : Type ℓ} (b : Bool) (r : Exec A) → (assert b >> r) ≡ (if b then r else panicked)
asserted true r = refl
asserted false r = refl

-- Eight bytes from an address, the lowest first.
abbrev pub eight_bytes : Memory → ℕ → ℕ
eight_bytes m p =
    m p
    + 2 ^ 8 * m (p + 1)
    + 2 ^ 16 * m (p + 2)
    + 2 ^ 24 * m (p + 3)
    + 2 ^ 32 * m (p + 4)
    + 2 ^ 40 * m (p + 5)
    + 2 ^ 48 * m (p + 6)
    + 2 ^ 56 * m (p + 7)

-- The address of the controllers: the one in the last record of type 5, two bytes behind its start,
-- or else `base`.
abbrev pub base_after : Memory → List ℕ → ℕ → ℕ
base_after m [] base = base
base_after m (q ∷ ps) base = base_after m ps (if m q == 5 then eight_bytes m (q + 2) else base)

load64-eight_bytes : (m : Memory) (p : ℕ) → load64 m p ≡ eight_bytes m p
unfolding load64
load64-eight_bytes m p = omega arith

count_record-base :
    (m : Memory) (q : ℕ) (acc : ℕ × ℕ)
    → (count_record m q acc).1 ≡ (if m q == 5 then eight_bytes m (q + 2) else acc.1)
unfolding count_record
count_record-base m q acc = elim (Bool-cases (m q == 5)) [
  | inl override ↦
      let other : (m q == 0) ≡ false = ground arith in
      rw (override, other) (load64-eight_bytes m (q + 2))
  | inr other ↦ elim (Bool-cases (m q == 0)) [
    | inl core ↦ rw (other, core) refl
    | inr neither ↦ rw (other, neither) refl
  ]
]

count_records-base :
    (m : Memory) (ps : List ℕ) (acc : ℕ × ℕ) → (count_records m ps acc).1 ≡ base_after m ps acc.1
count_records-base m [] acc = refl
count_records-base m (q ∷ ps) acc =
    count_records-base m ps (count_record m q acc)
    ∙ ap (λ (t : ℕ). base_after m ps t) (count_record-base m q acc)

-- Let the records of the table stand one after the other up to its end, each with a length from 1
-- to 127, and be fewer than the rounds of fuel. Then apic_init counts the controllers that are or can
-- be enabled, in 16 digits, panics if their number is not ncpus, and else maps a page at the address
-- two bytes behind the start of the last record of type 5, or at that of the table if there is none,
-- and starts the timer at the mapping.
pub apic_init-cores {ℓ} :
    {S : Type ℓ} (io : Bus S) (fuel : ℕ) (m : Memory) (madt : Madt) (ps : List ℕ) (ncpus : ℕ)
    (map_anon : ℕ → ℕ → S → Exec (ℕ × S)) (t : Hpet) (a : Lapic) (s : S)
    → length ps < fuel
    → Records m (u64 (madt.address + madt.length)) madt.records ps
    → apic_init io fuel m (some madt) ncpus map_anon t a s ≡ (
        if u16 (cores m ps) == ncpus
        then (map_anon (base_after m ps madt.lapic_addr) page_size s >>= λ (u : ℕ × S).
            apic_start io fuel t (record a { lapic_base = u.0 }) u.1)
        else panicked)
unfolding apic_init
apic_init-cores io fuel m madt ps ncpus map_anon t a s h r =
    let limit = u64 (madt.address + madt.length) in
    let n = count_records-cores m ps (0, madt.lapic_addr) refl in
    let counted : (count_records m ps (0, madt.lapic_addr)).0 ≡ u16 (cores m ps) =
      omega (arith, n) in
    rw
      (
        walk_records-count fuel m limit madt.records ps (0, madt.lapic_addr) (omega arith) h r,
        counted,
        count_records-base m ps (0, madt.lapic_addr),
      )
      (asserted (u16 (cores m ps) == ncpus) _)

-- A record of length 0 before the end of the table: the walk over it never ends.
walk_records_endless :
    (fuel : ℕ) (m : Memory) (limit p : ℕ) (acc : ℕ × ℕ)
    → p < limit
    → limit < 2 ^ 64
    → m (p + 1) ≡ 0
    → walk_records fuel m limit p acc ≡ out_of_fuel
unfolding walk_records
walk_records_endless zero m limit p acc h top no_length = refl
walk_records_endless (suc fuel) m limit p acc h top no_length =
    let inside : ltb p limit ≡ true = ground arith in
    let here : u64 (p + sign_extend 0) ≡ p =
      next_record p 0 (omega arith) (omega arith) ∙ omega arith in
    rw (inside, no_length, here)
      (walk_records_endless fuel m limit p (count_record m p acc) h top no_length)
