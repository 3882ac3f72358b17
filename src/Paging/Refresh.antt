-- ===== src/Paging/Refresh.antt =====
-- kernel/arch/x86_64/paging.c: refresh_pages comes to its end, and to every page.
use silkware.Base.{
  ℕ, zero, suc, ◌+◌, ◌*◌, ◌/◌, ◌^◌, ◌<◌, ◌≤◌, ◌≡◌, refl, ◌∙◌, ◌⊎◌, inl, inr, ltb, true, false, List,
  [], ◌∷◌, Bool-cases, u64, page_size, arith,
}
use silkware.Base.Exec.{Exec, done}
use silkware.Bits.Shifts.{bit_and_high}
use silkware.PageAlloc.Init.{page_base}
use silkware.Paging.Calls.{Kernel, refresh_from, refresh_pages}

-- One of the addresses.
abbrev pub Listed : ℕ → List ℕ → Type 0
Listed b [] = ⊥
Listed b (a ∷ as') = (b ≡ a) ⊎ Listed b as'

-- The page of an address.
abbrev pub page_of : ℕ → ℕ
page_of a = a / 0x1000 * 0x1000

-- A call that returns after it has flushed the pages of all addresses from `p` up to `end`, and
-- leaves the tables.
pub record IsFlushed (p end : ℕ) (k : Kernel) (r : Exec Kernel) : Type 0 where
  pub after : Kernel
  pub returns : r ≡ done after
  pub tables : after.tables ≡ k.tables
  pub each : (a : ℕ) → p ≤ a → a < end → Listed (page_of a) after.flushed
  pub kept : (b : ℕ) → Listed b k.flushed → Listed b after.flushed

refresh_from-more :
    (n p next end : ℕ) (k : Kernel)
    → ltb p end ≡ true
    → u64 (p + page_size) ≡ next
    → refresh_from (suc n) p end k ≡ refresh_from n next end (record k { flushed = p ∷ k.flushed })
unfolding refresh_from
refresh_from-more n p next end k t e = rw (t, e) refl

refresh_from-stop :
    (n p end : ℕ) (k : Kernel) → ltb p end ≡ false → refresh_from (suc n) p end k ≡ done k
unfolding refresh_from
refresh_from-stop n p end k f = rw f refl

refresh_from-IsFlushed :
    (n q end : ℕ) (k : Kernel)
    → end + 0x1000 < 2 ^ 64
    → end ≤ q * 0x1000 + n * 0x1000
    → IsFlushed (q * 0x1000) end k (refresh_from (suc n) (q * 0x1000) end k)
refresh_from-IsFlushed zero q end k top h =
    let stop : ltb (q * 0x1000) end ≡ false = ground arith in
    record {
      after = k;
      returns = refresh_from-stop zero (q * 0x1000) end k stop;
      tables = refl;
      each = λ a low high. absurd (omega arith);
      kept = λ b l. l;
    }
refresh_from-IsFlushed (suc n) q end k top h = elim (Bool-cases (ltb (q * 0x1000) end)) [
  | inl t ↦
      let next : u64 (q * 0x1000 + page_size) ≡ (q + 1) * 0x1000 = ground arith in
      let k' : Kernel = record k { flushed = q * 0x1000 ∷ k.flushed } in
      let rest = refresh_from-IsFlushed n (q + 1) end k' top (omega arith) in
      record {
        after = rest.after;
        returns =
            refresh_from-more (suc n) (q * 0x1000) ((q + 1) * 0x1000) end k t next ∙ rest.returns;
        tables = rest.tables;
        each = λ a low high. elim (Bool-cases (ltb a ((q + 1) * 0x1000))) [
          | inl u ↦ rest.kept (page_of a) (inl (ground arith))
          | inr u ↦ rest.each a (ground arith) high
        ];
        kept = λ b l. rest.kept b (inr l);
      }
  | inr f ↦ record {
    after = k;
    returns = refresh_from-stop (suc n) (q * 0x1000) end k f;
    tables = refl;
    each = λ a low high. absurd (ground arith);
    kept = λ b l. l;
  }
]

-- For addresses at least a page below the end of the address space, refresh_pages returns, on more
-- rounds of fuel than there are pages from `start` to `end`, after an invlpg for the page of every
-- address from `start` up to `end`; those flushed before stay flushed, and the tables do not change.
pub refresh_pages-IsFlushed :
    (n start end : ℕ) (k : Kernel)
    → start < 2 ^ 64
    → end + 0x1000 < 2 ^ 64
    → end ≤ page_of start + n * 0x1000
    → IsFlushed start end k (refresh_pages (suc n) start end k)
unfolding refresh_pages page_base
refresh_pages-IsFlushed n start end k low top h =
    let base = bit_and_high 52 12 start low in
    let all = refresh_from-IsFlushed n (start / 0x1000) end k top h in
    record {
      after = all.after;
      returns = rw base all.returns;
      tables = all.tables;
      each = λ a l. all.each a (omega arith);
      kept = all.kept;
    }
