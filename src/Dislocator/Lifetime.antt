-- ===== src/Dislocator/Lifetime.antt =====
-- The life of a block of libdislocator: what `__dislocator_alloc` returns, and what `free`
-- leaves of it.
use aflgo.Common.{
  ℕ, ◌+◌, ◌-◌, ◌*◌, ◌%◌, ◌^◌, ◌<◌, ◌≤◌, ◌≡◌, ◌⊎◌, inl, inr, ltb, true, false, ◌||◌, Option, none,
  some, refl, ◌∙◌, arith,
}
use aflgo.Dislocator.{
  System, Heap, Result, ok, segfault, page_size, pg_count, alloc_canary, seal_pages, set_up,
  step_back, block_pages, dislocator_alloc, free_block, free,
}
use aflgo.Dislocator.Store.{protect, put32, join}
use native.Mathlib.Nat.{mod-eq_of_lt}
use aflgo.Dislocator.Layout.{
  IsBlock, pages_of, ptr_of, laid_out, fresh, page_bounds, laid_out-off, fresh-zero,
  fresh-elsewhere, laid_out-IsBlock, store32-zeros, put32-off,
}

set_up-eq :
    (sys : System) (base len : ℕ) (h : Heap)
    → sys.mprotect (base + pages_of len) page_size ≡ true
    → set_up sys len base h
      ≡ ok (
        some (ptr_of base len),
        record h { mem = laid_out base len h.mem; total_mem = (h.total_mem + len) % 2 ^ 64 },
      )
unfolding set_up seal_pages
set_up-eq sys base len h sealed =
    let bound = page_bounds len in
    let zeros : (a : ℕ)
        → ptr_of base len - 8 ≤ a
        → a < ptr_of base len
        → fresh base len h.mem a ≡ some 0 =
      λ a low high. fresh-zero base len h.mem a (omega arith) (omega arith) in
    let first =
      store32-zeros (ptr_of base len - 8) len (fresh base len h.mem)
        (λ a low high. (0, zeros a low (omega arith))) in
    let second =
      store32-zeros (ptr_of base len - 4) alloc_canary
        (put32 (ptr_of base len - 8) len (fresh base len h.mem))
        (λ a low high. (
          0,
          put32-off (ptr_of base len - 8) len (fresh base len h.mem) a (inr (omega arith))
              ∙ zeros a (omega arith) (omega arith),
        )) in
    rw (sealed, first, second) refl

-- An allocation of `len` bytes in the mapping at `base`.
pub record IsAllocated (base len : ℕ) (h : Heap) (out : Result (Option ℕ × Heap)) : Type 0 where
  pub ptr : ℕ
  pub after : Heap
  pub returns : out ≡ ok (some ptr, after)
  pub block : IsBlock base len ptr after.mem
  pub zeroed : (a : ℕ) → ptr ≤ a → a < ptr + len → after.mem a ≡ some 0
  pub elsewhere :
      (a : ℕ) → (a < base) ⊎ (base + pages_of len + page_size ≤ a) → after.mem a ≡ h.mem a
  pub total : after.total_mem ≡ h.total_mem + len

set_up-IsAllocated :
    (sys : System) (base len : ℕ) (h : Heap)
    → sys.mprotect (base + pages_of len) page_size ≡ true
    → len < 2 ^ 32
    → h.total_mem + len < 2 ^ 64
    → IsAllocated base len h (set_up sys len base h)
set_up-IsAllocated sys base len h sealed small fits =
    let bound = page_bounds len in
    record {
      ptr = ptr_of base len;
      after = record h { mem = laid_out base len h.mem; total_mem = (h.total_mem + len) % 2 ^ 64 };
      returns = set_up-eq sys base len h sealed;
      block = laid_out-IsBlock base len h.mem small;
      zeroed = λ a low high.
          laid_out-off base len h.mem a (inr low)
          ∙ fresh-zero base len h.mem a (omega arith) (omega arith);
      elsewhere = λ a off.
          laid_out-off base len h.mem a
            (elim off [ inl l ↦ inl (omega arith) | inr r ↦ inr (omega arith) ])
          ∙ fresh-elsewhere base len h.mem a off;
      total = mod-eq_of_lt fits;
    }

-- When the request fits under the limit, the limit is below 4 GB, `mmap` gives a mapping at `base`
-- and the guard page can be protected, `__dislocator_alloc` returns a block that ends exactly where
-- the guard page begins, whose length and canary can be read back and whose bytes are zero; no
-- other mapping changes, and the total grows by the length.
pub dislocator_alloc-IsAllocated :
    (sys : System) (base len : ℕ) (h : Heap)
    → sys.mmap h.mem ((1 + pg_count (len + 8)) * page_size) ≡ some base
    → sys.mprotect (base + pages_of len) page_size ≡ true
    → h.total_mem + len ≤ h.max_mem
    → h.max_mem < 2 ^ 32
    → IsAllocated base len h (dislocator_alloc sys len h)
unfolding dislocator_alloc
dislocator_alloc-IsAllocated sys base len h mapped sealed room small =
    let sum : (h.total_mem + len) % 2 ^ 64 ≡ h.total_mem + len = mod-eq_of_lt (omega arith) in
    let fits : (ltb h.max_mem (h.total_mem + len) || ltb (h.total_mem + len) h.total_mem) ≡ false =
      ground arith in
    rw (sum, fits, mapped, dislocator_alloc)
      (set_up-IsAllocated sys base len h sealed (omega arith) (omega arith))

-- What `free` leaves of a block.
pub record IsFreed (sys : System) (base len ptr : ℕ) (h : Heap) : Type 0 where
  pub after : Heap
  pub returns : free sys (some ptr) h ≡ ok after
  pub gone : (a : ℕ) → base ≤ a → a < ptr + len → after.mem a ≡ none
  pub elsewhere : (a : ℕ) → (a < base) ⊎ (ptr + len ≤ a) → after.mem a ≡ h.mem a
  pub total : after.total_mem + len ≡ h.total_mem
  pub again : free sys (some ptr) after ≡ segfault

free_block-eq :
    (sys : System) (base len ptr : ℕ) (h : Heap)
    → IsBlock base len ptr h.mem
    → sys.mprotect base (pages_of len) ≡ true
    → len + 2 ^ 13 ≤ 2 ^ 32
    → free_block sys ptr h
      ≡ ok (record h {
        mem = protect base (pages_of len) h.mem;
        total_mem = (h.total_mem + 2 ^ 64 - len) % 2 ^ 64;
      })
unfolding free_block seal_pages
free_block-eq sys base len ptr h b sealed small =
    let bound = page_bounds len in
    let start : ptr - step_back len - 8 ≡ base = omega arith in
    let n : block_pages len * page_size ≡ pages_of len = omega arith in
    rw (b.canary_kept, b.length_kept, start, n, sealed, free_block) refl

-- Without access to the canary, `free` does not return.
free_block-segfault :
    (sys : System) (ptr : ℕ) (h : Heap) → h.mem (ptr - 4) ≡ none → free_block sys ptr h ≡ segfault
unfolding free_block join
free_block-segfault sys ptr h gone = rw (gone, free_block) refl

-- When `ptr` is a block of `len` bytes, at least two pages below 4 GB, whose pages can be protected
-- and which the total counts, `free` returns. No byte of the block's pages can be accessed then and
-- all else is as before, the total drops by the length, and a second `free` of the pointer segfaults.
pub free-IsFreed :
    (sys : System) (base len ptr : ℕ) (h : Heap)
    → IsBlock base len ptr h.mem
    → sys.mprotect base (pages_of len) ≡ true
    → len + 2 ^ 13 ≤ 2 ^ 32
    → len ≤ h.total_mem
    → h.total_mem < 2 ^ 64
    → IsFreed sys base len ptr h
unfolding free
free-IsFreed sys base len ptr h b sealed small counted fits =
    let bound = page_bounds len in
    record {
      after = record h {
        mem = protect base (pages_of len) h.mem;
        total_mem = (h.total_mem + 2 ^ 64 - len) % 2 ^ 64;
      };
      returns = free_block-eq sys base len ptr h b sealed small;
      gone = λ a low high. ground arith;
      elsewhere = λ a off. elim off [ inl l ↦ ground arith | inr r ↦ ground arith ];
      total = omega arith;
      again =
          free_block-segfault sys ptr
            (record h {
              mem = protect base (pages_of len) h.mem;
              total_mem = (h.total_mem + 2 ^ 64 - len) % 2 ^ 64;
            })
            (ground arith);
    }
