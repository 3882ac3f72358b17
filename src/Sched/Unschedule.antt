-- ===== src/Sched/Unschedule.antt =====
-- `unschedule`: the lists of a CPU without the first node of a pid.
use mathlib.Core.Path.{subst}
use silkware.Base.{
  ℕ, zero, suc, ◌+◌, ◌-◌, ◌<◌, ◌≡◌, refl, sym, ap, inl, inr, Bool, true, false, ◌||◌, Option, none,
  some, [], ◌∷◌, ◌++◌, arith, ◌==◌, if◌then◌else◌, Bool-cases, length,
}
use silkware.Base.Exec.{Exec, done}
use silkware.Links.{Cells, Items, has}
use silkware.Sched.{assign, Queue, remove_loop, tryremove_from}
use silkware.Sched.Fifo.{IsFifo}
use silkware.Sched.Remove.{AllOther, IsRemoved, remove_loop-IsRemoved, remove_loop-none}

-- Whether a node of the list has the pid.
abbrev pub has_pid : ℕ → Items → Bool
has_pid v [] = false
has_pid v ((_, w) ∷ xs) = w == v || has_pid v xs

-- The list without its first node of the pid.
abbrev pub without_pid : ℕ → Items → Items
without_pid v [] = []
without_pid v ((a, w) ∷ xs) = if w == v then xs else (a, w) ∷ without_pid v xs

-- The first priority, of the `left` ones from `i`, whose list has the pid.
abbrev pub priority_of : ℕ → ℕ → ℕ → (ℕ → Items) → Option ℕ
priority_of zero i v xs = none
priority_of (suc left) i v xs = if has_pid v (xs i) then some i else priority_of left (i + 1) v xs

-- A list with the pid, at its first node.
record Split (v : ℕ) (xs : Items) : Type 0 where
  pre : Items
  post : Items
  node : ℕ
  whole : xs ≡ pre ++ (node, v) ∷ post
  rest : without_pid v xs ≡ pre ++ post
  others : AllOther v pre

has_pid-Split : (v : ℕ) (xs : Items) → has_pid v xs ≡ true → Split v xs
has_pid-Split v [] h = absurd (ground arith)
has_pid-Split v ((a, w) ∷ xs) h = elim (Bool-cases (w == v)) [
  | inl same ↦
      let e : w ≡ v = ground arith in
      record { pre = []; post = xs; node = a; whole = rw e refl; rest = rw same refl; others = tt }
  | inr other ↦
      let s = has_pid-Split v xs (ground arith) in
      record {
        pre = (a, w) ∷ s.pre;
        post = s.post;
        node = s.node;
        whole = ap (λ t. (a, w) ∷ t) s.whole;
        rest = rw other (ap (λ t. (a, w) ∷ t) s.rest);
        others = (ground arith, s.others);
      }
]

all_other : (v : ℕ) (xs : Items) → has_pid v xs ≡ false → AllOther v xs
all_other v [] h = tt
all_other v ((a, w) ∷ xs) h = (ground arith, all_other v xs (ground arith))

length-split : (xs ys : Items) (a v : ℕ) → length xs < length (xs ++ (a, v) ∷ ys)
length-split [] ys a v = omega arith
length-split (x ∷ xs) ys a v = omega (arith, length-split xs ys a v)

module _ (h : Cells) (start end v fuel : ℕ) (xs : Items) (is : IsFifo h start end xs)
    (enough : length xs < fuel) where
  removed :
      has_pid v xs ≡ true
      → IsRemoved h xs (without_pid v xs) (remove_loop fuel h start end none start v)
  removed found =
      let s = has_pid-Split v xs found in
      let more = length-split s.pre s.post s.node v in
      let size : length xs ≡ length (s.pre ++ (s.node, v) ∷ s.post) = ap length s.whole in
      let spare = fuel - suc (length s.pre) in
      let e : length s.pre + suc spare ≡ fuel = omega arith in
      let is' = subst (λ t. IsFifo h start end t) s.whole is in
      let out = remove_loop-IsRemoved h start end s.node v spare s.pre s.post is' s.others in
      rw (s.rest, s.whole, sym e) out

  missing : has_pid v xs ≡ false → remove_loop fuel h start end none start v ≡ done none
  missing out =
      let spare = fuel - suc (length xs) in
      let e : length xs + suc spare ≡ fuel = omega arith in
      rw (sym e) (remove_loop-none h start end v spare xs is (all_other v xs out))

-- Fuel for every list of a queue.
abbrev pub Enough : ℕ → (ℕ → Items) → Type 0
Enough fuel xs = (p : ℕ) → p < 5 → length (xs p) < fuel

-- The list of priority `p` lost its first node of the pid.
pub record IsTaken (h : Cells) (q : Queue) (xs : ℕ → Items) (v p : ℕ)
    (r : Exec (Option (Cells × Queue))) : Type 0 where
  pub low : p < 5
  pub heap : Cells
  pub start : ℕ
  pub end : ℕ
  pub returns :
      r ≡ done (some (heap, record { start = assign q.start p start; end = assign q.end p end }))
  pub fifo : IsFifo heap start end (without_pid v (xs p))
  pub same : (b : ℕ) → has b (xs p) ≡ false → heap b ≡ h b

-- What `tryremove_from` gives, by where the pid is.
abbrev pub Taken :
    Cells → Queue → (ℕ → Items) → ℕ → Option ℕ → Exec (Option (Cells × Queue)) → Type 0
Taken h q xs v none r = r ≡ done none
Taken h q xs v (some p) r = IsTaken h q xs v p r

module _ (fuel left : ℕ) (h : Cells) (q : Queue) (i v : ℕ) where
  tryremove_from_found :
      (g : Cells) (start end : ℕ)
      → remove_loop fuel h (q.start i) (q.end i) none (q.start i) v ≡ done (some (g, start, end))
      → tryremove_from fuel (suc left) h q i v
        ≡ done (some (g, record { start = assign q.start i start; end = assign q.end i end }))
  unfolding tryremove_from
  tryremove_from_found g start end e = rw e refl

  tryremove_from_missing :
      remove_loop fuel h (q.start i) (q.end i) none (q.start i) v ≡ done none
      → tryremove_from fuel (suc left) h q i v ≡ tryremove_from fuel left h q (i + 1) v
  unfolding tryremove_from
  tryremove_from_missing e = rw e refl

pub tryremove_from-Taken :
    (fuel left : ℕ) (h : Cells) (q : Queue) (i v : ℕ) (xs : ℕ → Items)
    → i + left ≡ 5
    → ((p : ℕ) → p < 5 → IsFifo h (q.start p) (q.end p) (xs p))
    → Enough fuel xs
    → Taken h q xs v (priority_of left i v xs) (tryremove_from fuel left h q i v)
tryremove_from-Taken fuel zero h q i v xs five is enough = unfold tryremove_from in refl
tryremove_from-Taken fuel (suc left) h q i v xs five is enough =
    let low : i < 5 = omega arith in
    elim (Bool-cases (has_pid v (xs i))) [
      | inl found ↦
          let out = removed h (q.start i) (q.end i) v fuel (xs i) (is i low) (enough i low) found in
          rw found (record {
            low = low;
            heap = out.heap;
            start = out.start;
            end = out.end;
            returns = tryremove_from_found fuel left h q i v _ _ _ out.returns;
            fifo = out.fifo;
            same = out.same;
          })
      | inr other ↦
          let out = missing h (q.start i) (q.end i) v fuel (xs i) (is i low) (enough i low) other in
          rw (other, tryremove_from_missing fuel left h q i v out)
            (tryremove_from-Taken fuel left h q (i + 1) v xs (omega arith) is enough)
    ]
