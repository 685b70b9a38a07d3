-- ===== src/Heap/Tests.antt =====
-- kernel/heap.cc: concrete heaps, and the theorems at them.
use kernel_development_with.Prelude.{
  ℕ, ◌<◌, ◌≤◌, ◌+◌, ◌-◌, ◌*◌, ◌/◌, ◌^◌, ◌≡◌, ◌⊎◌, refl, Bool, true, false, arith, if◌then◌else◌,
  ◌==◌, ◌||◌,
}
use kernel_development_with.Heap
use kernel_development_with.Heap.Reads.{Plan, Held}
use kernel_development_with.Heap.Start.{first_heap, first_plan, first-Held, Ready, heap_init-Ready}
use kernel_development_with.Heap.Search.{Fresh, Refused, malloc-Fresh}
use kernel_development_with.Heap.Freeing.{Freed, free-Freed, Returned, malloc-free}
use kernel_development_with.Heap.{Heap, Access, done, outside, panicked, endless, ◌>>=◌}

abbrev blank : Bool → Heap
blank safe = record { base = 0; array = λ i. 0; len = 0; safe = safe; avail = 0 }

-- heapInit(4096, 256) with a lock of 32 bytes, and what `f` then gives.
abbrev after_init : {A : Type 0} → Bool → (Heap → Access A) → Access A
after_init safe f = Heap.heap_init 5 32 (blank safe) 4096 256 >>= λ r. f r.1

malloc_first : (after_init false λ s. Heap.malloc 5 s 10 >>= λ r. done r.0) ≡ done 4148
unfolding Heap.heap_init Heap.first_blocks Heap.new_object Heap.malloc Heap.make_taken
    Heap.make_avail Heap.footer_from_header Heap.size Heap.set_next Heap.set_prev Heap.request
    Heap.search Heap.better Heap.is_avail Heap.grant Heap.remove Heap.bypass Heap.prev Heap.next
    Heap.sanity Heap.matched Heap.split
malloc_first = refl

-- Two blocks are allocated and freed again: the next request gets the first one's place.
malloc_twice :
    (after_init {A = ℕ × ℕ × ℕ} true λ s. Heap.malloc 5 s 10 >>= λ a. Heap.malloc 5 a.1 100 >>= λ b.
    Heap.free b.1 a.0 >>= λ c.
    Heap.free c b.0 >>= λ d. Heap.malloc 5 d 180 >>= λ e. done (a.0, b.0, e.0))
    ≡ done (4148, 4168, 4148)
unfolding Heap.heap_init Heap.first_blocks Heap.new_object Heap.malloc Heap.make_taken
    Heap.make_avail Heap.footer_from_header Heap.size Heap.set_next Heap.set_prev Heap.request
    Heap.search Heap.better Heap.is_avail Heap.grant Heap.remove Heap.bypass Heap.prev Heap.next
    Heap.sanity Heap.matched Heap.split Heap.free Heap.release Heap.left Heap.right
    Heap.header_from_footer Heap.join_left Heap.join_right Heap.join Heap.is_taken
malloc_twice = refl

-- Freeing a block twice is a panic.
free_twice :
    (after_init false λ s.
      Heap.malloc 5 s 10 >>= λ a. Heap.free a.1 a.0 >>= λ c. Heap.free c a.0 >>= λ d. done d.avail)
    ≡ panicked
unfolding Heap.heap_init Heap.first_blocks Heap.new_object Heap.malloc Heap.make_taken
    Heap.make_avail Heap.footer_from_header Heap.size Heap.set_next Heap.set_prev Heap.request
    Heap.search Heap.better Heap.is_avail Heap.grant Heap.remove Heap.bypass Heap.prev Heap.next
    Heap.sanity Heap.matched Heap.split Heap.free Heap.release Heap.left Heap.right
    Heap.header_from_footer Heap.join_left Heap.join_right Heap.join Heap.is_taken
free_twice = refl

-- A request near 2 ^ 32 wraps around to the smallest block.
request_wraps : Heap.request (2 ^ 32 - 2) ≡ 4
unfolding Heap.request
request_wraps = refl

abbrev heap : Heap
heap = first_heap (blank true) 4096 64

heap-Held : Held heap (first_plan 64) 2 2
heap-Held = first-Held (blank true) 4096 64 (omega arith) (omega arith)

-- 32 bytes are too few for a lock.
heap_init_test : (Heap.heap_init 5 32 (blank false) 4096 32 >>= λ r. done r.0) ≡ panicked
unfolding Heap.heap_init Heap.first_blocks Heap.new_object Heap.malloc Heap.make_taken
    Heap.make_avail Heap.footer_from_header Heap.size Heap.set_next Heap.set_prev Heap.request
    Heap.search Heap.better Heap.is_avail Heap.next Heap.sanity
heap_init_test = refl

heap_init-Ready_example :
    let r = Heap.heap_init 5 32 (blank false) 4096 256 in
    ((256 / 4 < Heap.request 32 + 4) × (r ≡ panicked))
    ⊎ ((Heap.request 32 + 4 ≤ 256 / 4) × Ready 32 4096 (256 / 4) r)
heap_init-Ready_example =
    heap_init-Ready (blank false) 4096 256 5 32 refl (omega arith) (omega arith) (omega arith)
      (omega arith) (omega arith)

malloc-Fresh_example : Refused heap (first_plan 64) 10 2 ⊎ Fresh heap (first_plan 64) 10 2
malloc-Fresh_example =
    malloc-Fresh heap (first_plan 64) 2 heap-Held 10 2 (omega arith) (omega arith) (omega arith)

malloc-free_example : Refused heap (first_plan 64) 10 2 ⊎ Returned heap (first_plan 64) 10 2
malloc-free_example =
    malloc-free heap (first_plan 64) 2 heap-Held (omega arith) 10 2 (omega arith) (omega arith)
      (omega arith)

-- A heap whose block between the two ends is taken.
abbrev full_plan : Plan
full_plan = record (first_plan 64) { listed = λ i. false }

abbrev full_heap : Heap
full_heap = record heap {
  array = λ i.
      if (i == 0) || (i == 1) || (i == 62) || (i == 63)
      then Heap.negate 2
      else if (i == 2) || (i == 61)
      then Heap.negate 60
      else 0;
  avail = 0;
}

full_heap-Held : Held full_heap full_plan 2 2
full_heap-Held = record {
  room = omega arith;
  tiled = heap-Held.tiled;
  inner = λ i l. ground arith;
  shown = λ i p. ground arith;
  linked = record {
    null_unlisted = refl;
    onward = λ p l m. ground arith;
    backward = λ p l m. ground arith;
    first = λ p l m. ground arith;
    started = λ m. elim (m refl) [ ];
  };
}

free-Freed_example :
    (s' : Heap) × (Heap.free full_heap (4096 + (4 * 2 + 4)) ≡ done s')
    × Freed full_heap full_plan 2 s'
free-Freed_example =
    free-Freed full_heap full_plan 2 2 full_heap-Held
      (record {
        taken = (omega arith, refl);
        positive = omega arith;
        full = omega arith;
        inside = omega arith;
      })
      (omega arith)
