-- ===== src/Dislocator/Layout.antt =====
-- The memory that an allocation lays out: the block ends at the guard page, and its length and
-- canary stand below it.
use aflgo.Common.{
  ℕ, ◌+◌, ◌-◌, ◌*◌, ◌/◌, ◌%◌, ◌^◌, ◌<◌, ◌≤◌, ◌≡◌, ◌⊎◌, inl, inr, none, some, refl, ap, ◌∙◌, arith,
}
use aflgo.Dislocator.{page_size, pg_count, alloc_canary}
use aflgo.Dislocator.Store.{Memory, map_zero, protect, load32, store32, put32, join}

-- The four bytes of a written word.
put32-bytes :
    (p v : ℕ) (mem : Memory)
    → (put32 p v mem p ≡ some (v % 256))
      × (put32 p v mem (p + 1) ≡ some (v / 256 % 256))
      × (put32 p v mem (p + 2) ≡ some (v / 65536 % 256))
      × (put32 p v mem (p + 3) ≡ some (v / 16777216 % 256))
put32-bytes p v mem = (ground arith, ground arith, ground arith, ground arith)

four_bytes :
    (v : ℕ)
    → v < 2 ^ 32
    → v % 256 + 256 * (v / 256 % 256 + 256 * (v / 65536 % 256 + 256 * (v / 16777216 % 256))) ≡ v
four_bytes v h = omega arith

load32-of :
    (p b0 b1 b2 b3 : ℕ) (m : Memory)
    → m p ≡ some b0
    → m (p + 1) ≡ some b1
    → m (p + 2) ≡ some b2
    → m (p + 3) ≡ some b3
    → load32 p m ≡ some (b0 + 256 * (b1 + 256 * (b2 + 256 * b3)))
unfolding join
load32-of p b0 b1 b2 b3 m e0 e1 e2 e3 = rw (e0, e1, e2, e3) refl

load32-put32_self : (p v : ℕ) (mem : Memory) → v < 2 ^ 32 → load32 p (put32 p v mem) ≡ some v
load32-put32_self p v mem h =
    let e = put32-bytes p v mem in
    load32-of p _ _ _ _ (put32 p v mem) e.0 e.1 e.2 e.3 ∙ ap some (four_bytes v h)

load32-same :
    (p : ℕ) (m n : Memory) → ((a : ℕ) → p ≤ a → a < p + 4 → m a ≡ n a) → load32 p m ≡ load32 p n
load32-same p m n h =
    rw
      (
        h p (omega arith) (omega arith),
        h (p + 1) (omega arith) (omega arith),
        h (p + 2) (omega arith) (omega arith),
        h (p + 3) (omega arith) (omega arith),
      )
      refl

pub put32-off : (q v : ℕ) (m : Memory) (a : ℕ) → (a < q) ⊎ (q + 4 ≤ a) → put32 q v m a ≡ m a
put32-off q v m a (inl low) = ground arith
put32-off q v m a (inr high) = ground arith

-- Four bytes that are mapped can be written.
pub store32-zeros :
    (p v : ℕ) (mem : Memory)
    → ((a : ℕ) → p ≤ a → a < p + 4 → (b : ℕ) × (mem a ≡ some b))
    → store32 p v mem ≡ some (put32 p v mem)
unfolding store32
store32-zeros p v mem h =
    let b0 = h p (omega arith) (omega arith) in
    let b1 = h (p + 1) (omega arith) (omega arith) in
    let b2 = h (p + 2) (omega arith) (omega arith) in
    let b3 = h (p + 3) (omega arith) (omega arith) in
    rw (load32-of p _ _ _ _ mem b0.1 b1.1 b2.1 b3.1, store32) refl

-- The bytes of the mapping below the guard page.
abbrev pub pages_of : ℕ → ℕ
pages_of len = pg_count (len + 8) * page_size

-- A block of `len` bytes at `ptr` in the mapping at `base`.
pub record IsBlock (base len ptr : ℕ) (mem : Memory) : Type 0 where
  pub ends_at_guard : ptr + len ≡ base + pages_of len
  pub header_inside : base + 8 ≤ ptr
  pub length_kept : load32 (ptr - 8) mem ≡ some len
  pub canary_kept : load32 (ptr - 4) mem ≡ some alloc_canary
  pub guarded : (a : ℕ) → ptr + len ≤ a → a < ptr + len + page_size → mem a ≡ none

pub page_bounds : (len : ℕ) → (len + 8 ≤ pages_of len) × (pages_of len < len + 8 + 4096)
page_bounds len = (omega arith, omega arith)

-- The fresh pages, before the header is written.
abbrev pub fresh : ℕ → ℕ → Memory → Memory
fresh base len m =
    protect (base + pages_of len) page_size (map_zero base (pages_of len + page_size) m)

pub fresh-zero :
    (base len : ℕ) (m : Memory) (a : ℕ)
    → base ≤ a
    → a < base + pages_of len
    → fresh base len m a ≡ some 0
fresh-zero base len m a low high = ground arith

-- The pointer that is returned.
abbrev pub ptr_of : ℕ → ℕ → ℕ
ptr_of base len = base + pages_of len - len - 8 + 8

-- The memory of a block: its pages with the length and the canary.
abbrev pub laid_out : ℕ → ℕ → Memory → Memory
laid_out base len m =
    put32 (ptr_of base len - 4) alloc_canary (put32 (ptr_of base len - 8) len (fresh base len m))

laid_out-header :
    (base len : ℕ) (m : Memory)
    → len < 2 ^ 32
    → (load32 (ptr_of base len - 8) (laid_out base len m) ≡ some len)
      × (load32 (ptr_of base len - 4) (laid_out base len m) ≡ some alloc_canary)
laid_out-header base len m small =
    let bound = page_bounds len in
    let low = ptr_of base len - 8 in
    let high = ptr_of base len - 4 in
    (
      load32-same low _ _ (λ a l r.
            put32-off high alloc_canary (put32 low len (fresh base len m)) a (inl (omega arith)))
          ∙ load32-put32_self low len (fresh base len m) small,
      load32-put32_self high alloc_canary (put32 low len (fresh base len m)) (omega arith),
    )

-- Off the header, the fresh pages are as they were mapped.
pub laid_out-off :
    (base len : ℕ) (m : Memory) (a : ℕ)
    → (a < ptr_of base len - 8) ⊎ (ptr_of base len ≤ a)
    → laid_out base len m a ≡ fresh base len m a
laid_out-off base len m a off =
    let bound = page_bounds len in
    put32-off (ptr_of base len - 4) alloc_canary
      (put32 (ptr_of base len - 8) len (fresh base len m)) a
      (elim off [ inl l ↦ inl (omega arith) | inr r ↦ inr (omega arith) ])
    ∙ put32-off (ptr_of base len - 8) len (fresh base len m) a
        (elim off [ inl l ↦ inl l | inr r ↦ inr (omega arith) ])

pub fresh-guard :
    (base len : ℕ) (m : Memory) (a : ℕ)
    → base + pages_of len ≤ a
    → a < base + pages_of len + page_size
    → fresh base len m a ≡ none
fresh-guard base len m a low high = ground arith

pub fresh-elsewhere :
    (base len : ℕ) (m : Memory) (a : ℕ)
    → (a < base) ⊎ (base + pages_of len + page_size ≤ a)
    → fresh base len m a ≡ m a
fresh-elsewhere base len m a (inl low) = ground arith
fresh-elsewhere base len m a (inr high) = ground arith

pub laid_out-IsBlock :
    (base len : ℕ) (m : Memory)
    → len < 2 ^ 32
    → IsBlock base len (ptr_of base len) (laid_out base len m)
laid_out-IsBlock base len m small =
    let bound = page_bounds len in
    let header = laid_out-header base len m small in
    record {
      ends_at_guard = omega arith;
      header_inside = omega arith;
      length_kept = header.0;
      canary_kept = header.1;
      guarded = λ a low high.
          laid_out-off base len m a (inr (omega arith))
          ∙ fresh-guard base len m a (omega arith) (omega arith);
    }
