-- ===== src/PageAlloc/Split.antt =====
-- `get_buddy` and `split`: the pieces that a block is cut into.
use native.Mathlib.Nat.{pow-suc, pow-succ', one-le-pow, pow-le-pow_right, le_refl}
use silkware.Base.{
  ℕ, zero, suc, ◌+◌, ◌-◌, ◌*◌, ◌^◌, ◌≤◌, ◌<◌, bit_xor, ◌≡◌, ◌≢◌, refl, sym, ap, ◌∙◌, inr, [], ◌∷◌,
  ◌++◌, arith, ◌==◌, if◌then◌else◌, ◌/◌,
}
use silkware.Base.Exec.{done, panicked}
use silkware.Bits.Shifts.{bit_xor_fields, bit_xor_cancel}
use silkware.Links.{Cells, cell, set_value, Items, Seg, Seg-append}
use silkware.PageAlloc.{get_buddy, split_once, split_loop, split}
use silkware.PageAlloc.Order.{Ordered, Ordered-append, AllBuddies, AllBuddies-append, SameOutside}

-- For a block whose size and offset fit a word, the buddy of its buddy, taken at the same size, is
-- the block again.
get_buddy_involutive :
    (h : Cells) (base addr : ℕ)
    → base ≤ addr
    → addr - base < 2 ^ 64
    → (h addr).value < 2 ^ 64
    → (h (get_buddy h addr base)).value ≡ (h addr).value
    → get_buddy h (get_buddy h addr base) base ≡ addr
unfolding get_buddy
get_buddy_involutive h base addr le small fits same =
    let off = bit_xor (addr - base) (h addr).value in
    let e : base + off - base ≡ off = omega arith in
    rw (e, same) (omega (arith, bit_xor_cancel 64 (addr - base) (h addr).value small fits))

-- The buddy of a lower half is the upper half.
get_buddy_upper :
    (h : Cells) (base k q addr : ℕ)
    → (h addr).value ≡ 2 ^ k
    → addr ≡ base + q * 2 ^ suc k
    → get_buddy h addr base ≡ addr + 2 ^ k
unfolding get_buddy
get_buddy_upper h base k q addr v e =
    let off : addr - base ≡ q * 2 ^ suc k = omega arith in
    rw (off, v)
      (omega (arith, bit_xor_fields (suc k) q (2 ^ k) (omega (arith, pow-suc 2 k, one-le-pow k 2))))

-- What is left of a block of size `2 ^ (d + j)` at `b` when the piece of size `2 ^ j` at its front
-- is taken: blocks of the sizes `2 ^ j`, `2 ^ (j + 1)`, …, in address order.
abbrev pub halves : ℕ → ℕ → ℕ → Items
halves b j zero = []
halves b j (suc d) = halves b j d ++ ((b + 2 ^ (d + j), 2 ^ (d + j)) ∷ [])

pub pow-zero_add : (j : ℕ) → 2 ^ (0 + j) ≡ 2 ^ j
pow-zero_add j = let e : 0 + j ≡ j = omega arith in rw e

pub pow-suc_add : (d j : ℕ) → 2 ^ (suc d + j) ≡ 2 * 2 ^ (d + j)
pow-suc_add d j = let e : suc d + j ≡ suc (d + j) = omega arith in rw e (pow-succ' 2 (d + j))

pub halves-Ordered : (b j d : ℕ) → Ordered (b + 2 ^ j) (halves b j d) (b + 2 ^ (d + j))
halves-Ordered b j zero = omega (arith, pow-zero_add j)
halves-Ordered b j (suc d) =
    let p = one-le-pow (d + j) 2 (omega arith) in
    Ordered-append (b + 2 ^ j) (b + 2 ^ (d + j)) (b + 2 ^ (suc d + j)) (halves b j d) _
      (halves-Ordered b j d) (omega arith, omega arith, omega (arith, pow-suc_add d j))

pub halves-AllBuddies :
    (base b j d q : ℕ) → b ≡ base + q * 2 ^ (d + j) → AllBuddies base (halves b j d)
halves-AllBuddies base b j zero q e = tt
halves-AllBuddies base b j (suc d) q e =
    let double : q * 2 ^ (suc d + j) ≡ 2 * q * 2 ^ (d + j) =
      omega (arith, ap (λ (t : ℕ). q * t) (pow-suc_add d j)) in
    AllBuddies-append base (halves b j d) _ (halves-AllBuddies base b j d (2 * q) (omega arith))
      ((d + j, 2 * q + 1, refl, omega arith), tt)

-- One round: `b` is halved, and its upper half stands behind it.
split_once_lem :
    (h : Cells) (b base k q : ℕ)
    → (h b).value ≡ 2 ^ suc k
    → b ≡ base + q * 2 ^ suc k
    → (a : ℕ)
    → split_once h b base a ≡ (
        if a == b
        then cell (2 ^ k) (b + 2 ^ k)
        else if a == b + 2 ^ k
        then cell (2 ^ k) (h b).next
        else h a)
unfolding split_once
split_once_lem h b base k q v e a =
    let half : (h b).value / 2 ≡ 2 ^ k = omega (arith, pow-suc 2 k) in
    let halved = set_value h b ((h b).value / 2) in
    let self : (halved b).value ≡ 2 ^ k = ground (arith, half) in
    let up = get_buddy_upper halved base k q b self e in ground (arith, half, up, one-le-pow k 2)

-- What `split` leaves: `b` with the size asked for, and its other pieces behind it.
pub record IsSplit (h : Cells) (b j d : ℕ) (g : Cells) : Type 0 where
  pub size : (g b).value ≡ 2 ^ j
  pub pieces : Seg g (g b).next (halves b j d) (h b).next
  pub same : SameOutside b (b + 2 ^ (d + j)) h g

split_loop-IsSplit :
    (fuel : ℕ) (h : Cells) (b base j d q : ℕ)
    → d < fuel
    → (h b).value ≡ 2 ^ (d + j)
    → b ≡ base + q * 2 ^ (d + j)
    → (g : Cells) × (split_loop fuel h b (2 ^ j) base ≡ done g) × IsSplit h b j d g
unfolding split_loop
split_loop-IsSplit zero h b base j d q f v e = absurd (omega arith)
split_loop-IsSplit (suc fuel) h b base j zero q f v e =
    let size : (h b).value ≡ 2 ^ j = omega (arith, pow-zero_add j) in
    (h, ground arith, record { size = size; pieces = refl; same = λ a out. refl })
split_loop-IsSplit (suc fuel) h b base j (suc d) q f v e =
    let h1 = split_once h b base in
    let v' : (h b).value ≡ 2 ^ suc (d + j) = v ∙ pow-suc_add d j ∙ sym (pow-succ' 2 (d + j)) in
    let e' : b ≡ base + q * 2 ^ suc (d + j) =
      omega (arith, ap (λ (t : ℕ). q * t) (pow-suc_add d j ∙ sym (pow-succ' 2 (d + j)))) in
    let once = split_once_lem h b base (d + j) q v' e' in
    let pos = one-le-pow (d + j) 2 (omega arith) in
    let own : h1 b ≡ cell (2 ^ (d + j)) (b + 2 ^ (d + j)) = ground (arith, once b) in
    let upper : h1 (b + 2 ^ (d + j)) ≡ cell (2 ^ (d + j)) (h b).next =
      ground (arith, once (b + 2 ^ (d + j))) in
    let e'' : b ≡ base + 2 * q * 2 ^ (d + j) =
      omega (arith, ap (λ (t : ℕ). q * t) (pow-suc 2 (d + j))) in
    let (g, run, sp) =
      split_loop-IsSplit fuel h1 b base j d (2 * q) (omega arith) (ap (λ c. c.value) own) e'' in
    let bigger : (h b).value ≢ 2 ^ j = omega (
      arith,
      pow-suc_add d j,
      pow-le-pow_right {n = 2} (omega arith) {i = j} {j = d + j} (omega arith),
      pos,
    ) in
    let far : g (b + 2 ^ (d + j)) ≡ cell (2 ^ (d + j)) (h b).next =
      sp.same (b + 2 ^ (d + j)) (inr (le_refl _)) ∙ upper in
    (
      g,
      ground (arith, run),
      record {
        size = sp.size;
        pieces =
            Seg-append (halves b j d) _ g (g b).next (h1 b).next (h b).next sp.pieces
              (ap (λ c. c.next) own, ap (λ c. c.value) far, ap (λ c. c.next) far);
        same = λ a out. ground (arith, sp.same a, once a, pow-suc_add d j);
      },
    )

-- For a block at `b` whose size is a power of two and whose offset in the pool is a multiple of
-- it, and for a smaller or equal power of two, split ends, leaves at `b` a block of the size asked
-- for and behind it the pieces of the rest in order, and changes no header outside the block.
pub split-IsSplit :
    (h : Cells) (b base j d q : ℕ)
    → d < 65
    → (h b).value ≡ 2 ^ (d + j)
    → b ≡ base + q * 2 ^ (d + j)
    → (g : Cells) × (split h b (2 ^ j) base ≡ done g) × IsSplit h b j d g
unfolding split
split-IsSplit h b base j d q f v e =
    let le : 2 ^ j ≤ (h b).value =
      omega (arith, pow-le-pow_right {n = 2} (omega arith) {i = j} {j = d + j} (omega arith)) in
    let (g, run, sp) = split_loop-IsSplit 65 h b base j d q f v e in (g, ground (arith, run), sp)

-- A block smaller than the request is refused by the assertion.
split_small : (h : Cells) (b sz base : ℕ) → (h b).value < sz → split h b sz base ≡ panicked
unfolding split
split_small h b sz base p = ground arith
