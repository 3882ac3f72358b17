-- ===== src/Map/Search.antt =====
-- The loop that map_get, map_insert and map_del share: a round over `n` cells from behind `idx`.
use native.Mathlib.Nat.{mod-lt, mod-eq_of_lt, mod_self}
use silkware.Base.{
  Bool-cases, ltb→lt, ◌≢◌, ℕ, zero, suc, ◌+◌, ◌-◌, ◌%◌, ◌≤◌, ◌<◌, ◌≡◌, ◌⊎◌, inl, inr, Bool, true,
  false, Option, none, some, arith, ltb, ◌==◌, if◌then◌else◌,
}
use silkware.Base.Exec.{Exec, done, out_of_fuel}

-- `do { i = (i + 1) % n; if (hit(i)) return i; } while (i != idx);`
unfoldable pub search : (ℕ → Bool) → ℕ → ℕ → ℕ → ℕ → Exec (Option ℕ)
search hit n idx zero i = out_of_fuel
search hit n idx (suc fuel) i =
    let next = (i + 1) % n in
    let rest = search hit n idx fuel next in
    if hit next then done (some next) else if next == idx then done none else rest

-- The indices that the loop has still to visit when it stands at `i`.
abbrev pub Ahead : ℕ → ℕ → ℕ → ℕ → Type 0
Ahead n idx i j = ((i < idx) × (i < j) × (j ≤ idx)) ⊎ ((idx ≤ i) × ((i < j) ⊎ (j ≤ idx)))

abbrev pub rounds : ℕ → ℕ → ℕ → ℕ
rounds n idx i = if ltb i idx then idx - i else idx + n - i

next_index : (i n : ℕ) → i < n → (i + 1) % n ≡ (if ltb (i + 1) n then i + 1 else 0)
next_index i n h = elim (Bool-cases (ltb (i + 1) n)) [
  | inl within ↦ rw within (mod-eq_of_lt (ltb→lt _ _ within))
  | inr wraps ↦ let e : i + 1 ≡ n = ground arith in rw wraps (rw e (mod_self n))
]

-- What a search reports: an index that is hit, or that none of those ahead is.
abbrev pub Reports : (ℕ → Bool) → ℕ → ℕ → ℕ → Option ℕ → Type 0
Reports hit n idx i none = (j : ℕ) → j < n → Ahead n idx i j → hit j ≡ false
Reports hit n idx i (some j) = (hit j ≡ true) × (j < n)

Reports-step :
    (hit : ℕ → Bool) (n idx i next : ℕ) (r : Option ℕ)
    → idx < n
    → i < n
    → next ≡ (if ltb (i + 1) n then i + 1 else 0)
    → hit next ≡ false
    → next ≢ idx
    → Reports hit n idx next r
    → Reports hit n idx i r
Reports-step hit n idx i next none h l e miss ne rest = λ j k ahead. elim (Bool-cases (j == next)) [
  | inl same ↦ let eq : j ≡ next = ground arith in rw eq miss
  | inr other ↦ rest j k (ground arith)
]
Reports-step hit n idx i next (some j) h l e miss ne rest = rest

Reports-last :
    (hit : ℕ → Bool) (n idx i next : ℕ)
    → idx < n
    → i < n
    → next ≡ (if ltb (i + 1) n then i + 1 else 0)
    → hit next ≡ false
    → next ≡ idx
    → Reports hit n idx i none
Reports-last hit n idx i next h l e miss same j k ahead =
    let eq : j ≡ next = ground arith in rw eq miss

-- With fuel for the rounds left, the loop ends, and its report is right.
pub search-Reports :
    (hit : ℕ → Bool) (n idx fuel i : ℕ)
    → idx < n
    → i < n
    → rounds n idx i ≤ fuel
    → (r : Option ℕ) × (search hit n idx fuel i ≡ done r) × Reports hit n idx i r
unfolding search
search-Reports hit n idx zero i h l few = absurd (ground arith)
search-Reports hit n idx (suc fuel) i h l few =
    let next = (i + 1) % n in
    let e = next_index i n l in
    let in_range : next < n = mod-lt (i + 1) (omega arith) in
    elim (Bool-cases (hit next)) [
      | inl got ↦ (some next, rw got, (got, in_range))
      | inr miss ↦ elim (Bool-cases (next == idx)) [
        | inl last ↦
            (none, rw (miss, last), Reports-last hit n idx i next h l e miss (ground arith))
        | inr more ↦
            let (r, run, report) = search-Reports hit n idx fuel next h in_range (ground arith) in
            (
              r,
              rw (miss, more) run,
              Reports-step hit n idx i next r h l e miss (ground arith) report,
            )
      ]
    ]
