-- ===== src/Dislocator.antt =====
-- The allocator of afl-2.57b/libdislocator/libdislocator.so.c, over a memory of bytes that are
-- mapped or not. `mmap` and `mprotect` are parameters.
pub mod Store
pub mod Layout
pub mod Lifetime
pub mod Overflow
pub mod Tests
use aflgo.Common.{
  ℕ, ◌+◌, ◌-◌, ◌*◌, ◌/◌, ◌%◌, ◌^◌, ◌==◌, ◌!=◌, ltb, leb, min, if◌then◌else◌, Bool, ◌&&◌, ◌||◌,
  Option, none, some, List, [], ◌∷◌,
}
use aflgo.Dislocator.Store.{Memory, map_zero, protect, fill, copy, load32, store32}

-- `abort` is FATAL; `segfault` is an access to memory that is not mapped.
pub data Result {ℓ} (A : Type ℓ) : Type ℓ where
  ok : A → Result A
  abort : Result A
  segfault : Result A

infixl 5 ◌>>=◌
abbrev pub ◌>>=◌ {ℓ κ} : {A : Type ℓ} {B : Type κ} → Result A → (A → Result B) → Result B
ok a >>= f = f a
abort >>= f = abort
segfault >>= f = segfault

-- An access that memory refuses.
abbrev pub access {ℓ} : {A : Type ℓ} → Option A → Result A
access none = segfault
access (some a) = ok a

-- The settings of `__dislocator_init`, and the state.
pub record Heap : Type 0 where
  pub mem : Memory
  pub total_mem : ℕ
  pub max_mem : ℕ
  pub hard_fail : Bool
  pub no_calloc_over : Bool

-- What the operating system answers: the address of a new mapping of a size, or a failure; and
-- whether a protection succeeds.
pub record System : Type 0 where
  pub mmap : Memory → ℕ → Option ℕ
  pub mprotect : ℕ → ℕ → Bool

abbrev pub page_size : ℕ
page_size = 4096

abbrev pub pg_count : ℕ → ℕ
pg_count l = (l + (page_size - 1)) / page_size

abbrev pub alloc_canary : ℕ
alloc_canary = 0xAACCAACC

abbrev pub alloc_clobber : ℕ
alloc_clobber = 0xCC

-- `PG_COUNT(len + 8)` in `free`, where `len` is a `u32`.
abbrev pub block_pages : ℕ → ℕ
block_pages len = (len + 8 + (page_size - 1)) % 2 ^ 32 / page_size

-- `PAGE_SIZE * PG_COUNT(len + 8) - len - 8`, also a `u32`.
abbrev pub step_back : ℕ → ℕ
step_back len = (page_size * block_pages len + 2 ^ 33 - len - 8) % 2 ^ 32

-- A failed allocation: `hard_fail` decides between FATAL and NULL.
abbrev pub refuse : Heap → Result (Option ℕ × Heap)
refuse h = if h.hard_fail then abort else ok (none, h)

module _ (sys : System) where
  -- `mprotect(p, n, PROT_NONE)`, or FATAL.
  unfoldable pub seal_pages : ℕ → ℕ → Heap → Result Heap
  seal_pages p n h = if sys.mprotect p n then ok (record h { mem = protect p n h.mem }) else abort

  -- The mapping at `base`: the guard page, the length and the canary.
  unfoldable pub set_up : ℕ → ℕ → Heap → Result (Option ℕ × Heap)
  unfolding seal_pages
  set_up len base h =
      let pages = pg_count (len + 8) * page_size in
      let mapped = record h { mem = map_zero base (pages + page_size) h.mem } in
      do
        guarded ← seal_pages (base + pages) page_size mapped
        let ret = base + pages - len - 8 + 8
        m1 ← access (store32 (ret - 8) len guarded.mem)
        m2 ← access (store32 (ret - 4) alloc_canary m1)
        ok (some ret, record h { mem = m2; total_mem = (h.total_mem + len) % 2 ^ 64 })

  unfoldable pub dislocator_alloc : ℕ → Heap → Result (Option ℕ × Heap)
  dislocator_alloc len h =
      let sum = (h.total_mem + len) % 2 ^ 64 in
      if ltb h.max_mem sum || ltb sum h.total_mem
      then refuse h
      else elim (sys.mmap h.mem ((1 + pg_count (len + 8)) * page_size)) [
        | none ↦ refuse h
        | some base ↦ set_up len base h
      ]

  unfoldable pub calloc : ℕ → ℕ → Heap → Result (Option ℕ × Heap)
  calloc elem_len elem_cnt h =
      let len = elem_len * elem_cnt % 2 ^ 64 in
      if elem_cnt != 0 && len / elem_cnt != elem_len
      then (if h.no_calloc_over then ok (none, h) else abort)
      else dislocator_alloc len h

  unfoldable pub malloc : ℕ → Heap → Result (Option ℕ × Heap)
  malloc len h = do
    r ← dislocator_alloc len h
    elim r.0 [
      | none ↦ ok r
      | some ret ↦ access (fill ret len alloc_clobber r.1.mem) >>= λ m.
          ok (some ret, record (r.1) { mem = m })
    ]

  -- `free` of a pointer that is not NULL.
  unfoldable pub free_block : ℕ → Heap → Result Heap
  unfolding seal_pages
  free_block ptr h = do
    canary ← access (load32 (ptr - 4) h.mem)
    len ← access (load32 (ptr - 8) h.mem)
    if canary != alloc_canary
        then abort
        else seal_pages (ptr - step_back len - 8) (block_pages len * page_size)
            (record h { total_mem = (h.total_mem + 2 ^ 64 - len) % 2 ^ 64 })

  unfoldable pub free : Option ℕ → Heap → Result Heap
  free none h = ok h
  free (some ptr) h = free_block ptr h

  -- The move of `realloc` into the new block.
  unfoldable pub move_block : ℕ → ℕ → ℕ → Heap → Result Heap
  move_block ret ptr len h = do
    canary ← access (load32 (ptr - 4) h.mem)
    old ← access (load32 (ptr - 8) h.mem)
    if canary != alloc_canary
        then abort
        else access (copy ret ptr (min len old) h.mem) >>= λ m.
            free_block ptr (record h { mem = m })

  unfoldable pub realloc : Option ℕ → ℕ → Heap → Result (Option ℕ × Heap)
  realloc none len h = malloc len h
  realloc (some ptr) len h = do
    r ← malloc len h
    elim r.0 [ none ↦ ok r | some ret ↦ move_block ret ptr len r.1 >>= λ h'. ok (some ret, h') ]
