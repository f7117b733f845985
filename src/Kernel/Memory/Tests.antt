-- ===== src/Kernel/Memory/Tests.antt =====
-- The theorems on the heap at a concrete heap.
use internetworking_nat_box.Base.{◌≡◌, refl, true, some, [], ◌∷◌, arith}
use internetworking_nat_box.Kernel.Memory.{block, Memory, first_fit, getmem, getstk, freemem}
use internetworking_nat_box.Kernel.Memory.Heap.{IsHeap, sum_lengths}
use internetworking_nat_box.Kernel.Memory.Allocate.{Allocated, getmem-Allocated}
use internetworking_nat_box.Kernel.Memory.Release.{Freed, freemem-Freed}
use internetworking_nat_box.Kernel.Memory.Stack.{StackAllocated, getstk-StackAllocated}
use internetworking_nat_box.Kernel.Memory.Roundtrip.{freemem-getmem}

abbrev heap : Memory
heap = record {
  free = block 4096 16 ∷ block 4200 64 ∷ [];
  total = 80;
  minheap = 4096;
  maxheap = 8191;
}

heap-IsHeap : IsHeap heap
unfolding sum_lengths
heap-IsHeap = record { start = omega arith; end = omega arith; chain = omega arith; counted = refl }

getmem-heap :
    getmem 20 heap
    ≡ (some 4200, record heap { free = block 4096 16 ∷ block 4224 40 ∷ []; total = 56 })
unfolding getmem first_fit
getmem-heap = refl

freemem-getmem_example :
    freemem 4200 20 (record heap { free = block 4096 16 ∷ block 4224 40 ∷ []; total = 56 })
    ≡ (true, heap)
freemem-getmem_example = freemem-getmem 20 heap (omega arith) (omega arith) heap-IsHeap getmem-heap

getmem-Allocated_example : Allocated heap 24 (getmem 20 heap)
getmem-Allocated_example = getmem-Allocated 20 heap (omega arith) (omega arith) heap-IsHeap

freemem-Freed_example : Freed heap 24 (freemem 4112 20 heap)
freemem-Freed_example = freemem-Freed 4112 20 heap (omega arith) (omega arith) heap-IsHeap

getstk-StackAllocated_example : StackAllocated heap 24 (getstk 20 heap)
getstk-StackAllocated_example =
    getstk-StackAllocated 20 heap (omega arith) (omega arith) heap-IsHeap
