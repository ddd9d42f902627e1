-- ===== src/Dislocator/Tests.antt =====
-- The allocator over an operating system that maps at a fixed address.
use aflgo.Common.{◌*◌, ◌^◌, true, false, none, some, ◌≡◌, refl, arith, if◌then◌else◌, leb}
use aflgo.Dislocator.{System, Heap, ok, abort, calloc, dislocator_alloc}
use aflgo.Dislocator.Overflow.{calloc_lem}
use aflgo.Dislocator.Layout.{ptr_of, laid_out, laid_out-IsBlock}
use aflgo.Dislocator.Lifetime.{IsAllocated, IsFreed, dislocator_alloc-IsAllocated, free-IsFreed}

abbrev linux : System
linux = record { mmap = λ m n. some 0x10000; mprotect = λ p n. true }

abbrev idle : Heap
idle = record {
  mem = λ a. none;
  total_mem = 0;
  max_mem = 2 ^ 30;
  hard_fail = false;
  no_calloc_over = false;
}

-- A heap with one block of 100 bytes.
abbrev busy : Heap
busy = record idle { mem = laid_out 0x10000 100 idle.mem; total_mem = 100 }

calloc_example : calloc linux (2 ^ 40) (2 ^ 30) idle ≡ (
    if leb (2 ^ 64) (2 ^ 40 * 2 ^ 30)
    then (if idle.no_calloc_over then ok (none, idle) else abort)
    else dislocator_alloc linux (2 ^ 40 * 2 ^ 30) idle)
calloc_example = calloc_lem linux (2 ^ 40) (2 ^ 30) idle (omega arith)

dislocator_alloc-IsAllocated_example :
    IsAllocated 0x10000 100 idle (dislocator_alloc linux 100 idle)
dislocator_alloc-IsAllocated_example =
    dislocator_alloc-IsAllocated linux 0x10000 100 idle refl refl (omega arith) (omega arith)

free-IsFreed_example : IsFreed linux 0x10000 100 (ptr_of 0x10000 100) busy
free-IsFreed_example =
    free-IsFreed linux 0x10000 100 (ptr_of 0x10000 100) busy
      (laid_out-IsBlock 0x10000 100 idle.mem (omega arith)) refl (omega arith) (omega arith)
      (omega arith)
