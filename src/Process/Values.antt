-- ===== src/Process/Values.antt =====
-- Writing through a pointer to a value of `procmap`, and the keys of pids.
use native.Mathlib.Nat.{pow-suc}
use silkware.Base.{
  ℕ, zero, suc, ◌/◌, ◌%◌, ◌^◌, ◌<◌, ◌≡◌, ◌≢◌, ◌⊎◌, inl, inr, refl, ap, ◌∙◌, false, Option, none,
  some, arith, get_or, set, length-set, ◌==◌, if◌then◌else◌, Bool-cases,
}
use silkware.Base.Exec.{Exec, done}
use silkware.Map.{Bytes, MapItem, Map, drop, item_at, find_slot, le_bytes}
use silkware.Map.Lookup.{key_of, IsMap, Binds, IsSlot, find_slot-IsSlot}
use silkware.Map.Update.{get_or-set}
use silkware.Map.Set.{Assigns}
use silkware.Process.{proc_key, store_value}

-- Different numbers of `k` bytes have different bytes.
le_bytes_injective : (k x y : ℕ) → x < 256 ^ k → y < 256 ^ k → le_bytes k x ≡ le_bytes k y → x ≡ y
unfolding le_bytes
le_bytes_injective zero x y h l e = omega arith
le_bytes_injective (suc k) x y h l e =
    let first : x % 256 ≡ y % 256 = ap (λ bs. get_or bs 0 0) e in
    let rest : le_bytes k (x / 256) ≡ le_bytes k (y / 256) = ap (drop 1) e in
    let power = pow-suc 256 k in
    let high =
      le_bytes_injective k (x / 256) (y / 256) (omega (arith, power)) (omega (arith, power)) rest in
    omega (arith, first, high)

pub proc_key_injective : (v w : ℕ) → v < 2 ^ 64 → w < 2 ^ 64 → proc_key v ≡ proc_key w → v ≡ w
proc_key_injective v w h l e = le_bytes_injective 8 v w h l e

module _ {m : Map} (is : IsMap m) (pid : ℕ) (b : Bytes) (change : Bytes → Bytes) (i : ℕ)
    (here : key_of (item_at m i) ≡ some (proc_key pid)) (own : (item_at m i).v.item ≡ b)
    (low : i < m.cap) where
  abbrev item : MapItem
  item = record (item_at m i) { v = record (item_at m i).v { item = change (item_at m i).v.item } }

  abbrev after : Map
  after = record m { cell = set m.cell i item }

  item_at-after : (j : ℕ) → item_at after j ≡ (if j == i then item else item_at m j)
  item_at-after j = get_or-set m.cell i j item (rw is.cells low)

  after-IsMap : IsMap after
  after-IsMap = record {
    cells = length-set m.cell i _ ∙ is.cells;
    top = is.top;
    above = λ j h. ground (arith, item_at-after j, is.above j, is.above i);
    stored = λ j f e. ground (arith, item_at-after j, is.stored j f, is.stored i f);
    unique = λ x y k p q. ground (arith, item_at-after x, item_at-after y, is.unique x y k);
  }

  after-Assigns : Assigns m (proc_key pid) (change b) after
  after-Assigns k w = (to, from)
    where
      to :
          Binds after k w
          → ((k ≡ proc_key pid) × (w ≡ change b)) ⊎ ((k ≢ proc_key pid) × Binds m k w)
      to (j, e, ev) = elim (Bool-cases (j == i)) [
        | inl same ↦ inl (ground (arith, item_at-after j), ground (arith, item_at-after j))
        | inr other ↦
            let e' : key_of (item_at m j) ≡ some k = ground (arith, item_at-after j) in
            let ev' : (item_at m j).v.item ≡ w = ground (arith, item_at-after j) in
            inr ((λ eq. absurd (ground (arith, is.unique i j (proc_key pid)))), (j, e', ev'))
      ]

      from :
          ((k ≡ proc_key pid) × (w ≡ change b)) ⊎ ((k ≢ proc_key pid) × Binds m k w)
          → Binds after k w
      from (inl (ek, ev)) = (i, ground (arith, item_at-after i), ground (arith, item_at-after i))
      from (inr (ne, (j, e, ev))) =
          let other : (j == i) ≡ false = ground arith in
          (j, ground (arith, item_at-after j), ground (arith, item_at-after j))

-- What a write through a pointer leaves: a well-formed map with the new value under the pid.
pub record IsStoredIn (m : Map) (pid : ℕ) (v : Bytes) (r : Exec Map) : Type 0 where
  pub map : Map
  pub returns : r ≡ done map
  pub valid : IsMap map
  pub top : map.max ≡ m.max
  pub assigns : Assigns m (proc_key pid) v map

pub store_value-IsStoredIn :
    {m : Map} (is : IsMap m) (pid : ℕ) (b : Bytes) (change : Bytes → Bytes)
    → m.max ≢ 0
    → Binds m (proc_key pid) b
    → IsStoredIn m pid (change b) (store_value m pid change)
store_value-IsStoredIn {m} is pid b change pos (j, e, ev) =
    let (slot, run, found) = find_slot-IsSlot is (proc_key pid) pos in outcome slot run found
  where
    outcome :
        (slot : Option ℕ)
        → find_slot m (proc_key pid) ≡ done slot
        → IsSlot m (proc_key pid) slot
        → IsStoredIn m pid (change b) (store_value m pid change)
    outcome none run absent = absurd (absent j e)
    outcome (some i) run (here, low) =
        let same : i ≡ j = is.unique i j (proc_key pid) here e in
        let own : (item_at m i).v.item ≡ b = rw same ev in
        record {
          map = after is pid b change i here own (omega (arith, is.top));
          returns = unfold store_value in rw run refl;
          valid = after-IsMap is pid b change i here own (omega (arith, is.top));
          top = refl;
          assigns = after-Assigns is pid b change i here own (omega (arith, is.top));
        }
