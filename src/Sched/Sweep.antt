-- ===== src/Sched/Sweep.antt =====
-- Repeated calls of `proc_next` on the run queues of a CPU.
use mathlib.Core.List.{append-nil, append_assoc}
use silkware.Base.{
  ℕ, zero, suc, ◌+◌, ◌<◌, ◌≡◌, ◌≢◌, refl, sym, ap, ◌∙◌, inl, inr, false, some, List, [], ◌∷◌, ◌++◌,
  arith, ◌==◌, Bool-cases, length, ==_refl,
}
use silkware.Base.Exec.{Exec, done, ◌>>=◌}
use silkware.Links.{Items}
use silkware.Map.{Bytes, Map, map_get, le_bytes}
use silkware.Sched.{assign, Run, proc_next}
use silkware.Sched.Queues.{IsRun, behind}
use silkware.Sched.Next.{proc_next-IsNext}

-- The processes that `k` calls of `proc_next` make current, one after the other.
unfoldable pub next_times : ℕ → Map → Run → Exec (List Bytes × Run)
next_times zero procmap s = done ([], s)
next_times (suc k) procmap s =
    proc_next procmap s >>= λ r. next_times k procmap r.1 >>= λ t. done (r.0 ∷ t.0, t.1)

-- From one state, calls that make the processes current lead to another.
pub data Runs (procmap : Map) : Run → List Bytes → Run → Type 0 where
  stop : {s : Run} → Runs procmap s [] s
  step :
      {s t u : Run} {b : Bytes} {bs : List Bytes}
      → proc_next procmap s ≡ done (b, t)
      → Runs procmap t bs u
      → Runs procmap s (b ∷ bs) u

pub Runs-append :
    {procmap : Map} {s t u : Run} {bs cs : List Bytes}
    → Runs procmap s bs t
    → Runs procmap t cs u
    → Runs procmap s (bs ++ cs) u
Runs-append stop rest = rest
Runs-append (step e first) rest = step e (Runs-append first rest)

pub next_times-Runs :
    {procmap : Map} {s t : Run} {bs : List Bytes}
    → Runs procmap s bs t
    → next_times (length bs) procmap s ≡ done (bs, t)
unfolding next_times
next_times-Runs stop = refl
next_times-Runs (step e rest) = rw (e, next_times-Runs rest) refl

-- The pids of a list are not 0, and name processes in procmap.
abbrev pub Known : Map → (ℕ → Bytes) → Items → Type 0
Known procmap proc [] = Unit
Known procmap proc ((_, v) ∷ xs) =
    (v ≢ 0) × (map_get procmap (le_bytes 8 v) ≡ done (some (proc v))) × Known procmap proc xs

-- The processes of a list.
abbrev pub procs : (ℕ → Bytes) → Items → List Bytes
procs proc [] = []
procs proc ((_, v) ∷ xs) = proc v ∷ procs proc xs

-- The lists of the `left` priorities from `i`, one after the other.
abbrev pub in_order : ℕ → ℕ → (ℕ → Items) → Items
in_order zero i xs = []
in_order (suc left) i xs = xs i ++ in_order left (i + 1) xs

-- A state with these queues, after calls that make the processes current.
pub record Reach (procmap : Map) (s : Run) (bs : List Bytes) (xs ys : ℕ → Items) : Type 0 where
  pub state : Run
  pub runs : Runs procmap s bs state
  pub queues : IsRun state xs ys

pub IsRun-lists :
    {s : Run} {xs ys : ℕ → Items} (zs ws : ℕ → Items)
    → ((p : ℕ) → p < 5 → zs p ≡ xs p)
    → ((p : ℕ) → p < 5 → ws p ≡ ys p)
    → IsRun s xs ys
    → IsRun s zs ws
IsRun-lists {s} {xs} {ys} zs ws e f is = record {
  active = λ p h. rw (e p h) (is.active p h);
  inactive = λ p h. rw (f p h) (is.inactive p h);
  apart_active = λ p r a h k. rw (e p h, e r k) (is.apart_active p r a h k);
  apart_inactive = λ p r a h k. rw (f p h, f r k) (is.apart_inactive p r a h k);
  apart = λ p r a h k. rw (e p h, f r k) (is.apart p r a h k);
}

assign_at : (f : ℕ → Items) (p : ℕ) (l : Items) → assign f p l p ≡ l
assign_at f p l = rw (==_refl p) refl

pub assign_same : (f : ℕ → Items) (p : ℕ) (l : Items) (r : ℕ) → f p ≡ l → assign f p l r ≡ f r
assign_same f p l r e = elim (Bool-cases (r == p)) [
  | inl same ↦ let at : r ≡ p = ground arith in rw (same, at) (sym e)
  | inr other ↦ rw other refl
]

assign_twice :
    (f : ℕ → Items) (p : ℕ) (k l : Items) (r : ℕ) → assign f p l r ≡ assign (assign f p k) p l r
assign_twice f p k l r = elim (Bool-cases (r == p)) [
  | inl same ↦ rw same refl
  | inr other ↦ rw other refl
]

module _ (procmap : Map) (proc : ℕ → Bytes) where
  -- The calls that empty the list of the highest priority with a node.
  pub empty_list :
      (l : Items) {s : Run} {xs ys : ℕ → Items} (p : ℕ)
      → IsRun s xs ys
      → p < 5
      → ((r : ℕ) → r < p → xs r ≡ [])
      → xs p ≡ l
      → Known procmap proc l
      → Reach procmap s (procs proc l) (assign xs p []) (assign ys p (ys p ++ l))
  empty_list [] {s} {xs} {ys} p is low above e known = record {
    state = s;
    runs = stop;
    queues =
        IsRun-lists _ _ (λ r h. assign_same xs p [] r e)
          (λ r h. assign_same ys p (ys p ++ []) r (sym (append-nil (ys p)))) is;
  }
  empty_list ((a, v) ∷ l) {s} {xs} {ys} p is low above e known =
      let next = proc_next-IsNext is procmap p a v l (proc v) low above e known.0 known.1 in
      let rest =
        empty_list l p next.queues low (λ r h. assign_above r h ∙ above r h) (assign_at xs p l)
          known.2 in
      let joined : behind ys p a v p ++ l ≡ ys p ++ (a, v) ∷ l =
        ap (λ t. t ++ l) (assign_at ys p _) ∙ append_assoc (ys p) ((a, v) ∷ []) l in
      record {
        state = rest.state;
        runs = step next.returns rest.runs;
        queues =
            IsRun-lists _ _ (λ r h. assign_twice xs p l [] r)
              (λ r h.
                assign_twice ys p _ _ r ∙ ap (λ t. assign (behind ys p a v) p t r) (sym joined))
              rest.queues;
      }
    where
      assign_above : (r : ℕ) → r < p → assign xs p l r ≡ xs r
      assign_above r h = let other : (r == p) ≡ false = ground arith in rw other refl
