-- ===== src/PhysMem.antt =====
-- kernel/physmem.h and kernel/physmem.cc: the allocator of physical frames. Memory is a function
-- from byte addresses to the 32-bit words that stand there; the allocator writes whole words. Each
-- operation holds the allocator's lock, so it is one step.
pub mod Frames
pub mod Places
pub mod Client
mod Tests
use kernel_development_with.Prelude.{
  ℕ, ◌+◌, ◌-◌, ◌*◌, ◌/◌, ◌%◌, ◌^◌, Bool, if◌then◌else◌, ltb, leb, ◌==◌, ◌&&◌, not, add32, sub32,
  low_bits, shr,
}
use kernel_development_with.Prelude.Outcome.{Outcome, ok, panic, ◌>>=◌, ◌>>◌, assert}
use kernel_development_with.Queue.{Links, update}

abbrev pub frame_size : ℕ
frame_size = 2 ^ 12

-- offset(pa), ppn(pa), framedown(pa), frameup(pa)
abbrev pub offset : ℕ → ℕ
offset pa = low_bits pa 12

abbrev pub ppn : ℕ → ℕ
ppn pa = shr pa 12

abbrev pub framedown : ℕ → ℕ
framedown pa = pa / frame_size * frame_size

abbrev pub frameup : ℕ → ℕ
frameup pa = framedown (sub32 (add32 pa frame_size) 1)

-- The word at each address; the first word of a free frame is its `next`.
abbrev pub Memory : Type 0
Memory = Links

-- bzero of `n` bytes.
abbrev pub bzero : Memory → ℕ → ℕ → Memory
bzero m p n q = if leb p q && ltb q (p + n) then 0 else m q

-- The allocator's variables, and the memory.
pub record PhysMem : Type 0 where
  pub memory : Memory
  pub first_free : ℕ
  pub avail : ℕ
  pub limit : ℕ

-- alloc_frame: the choice of the frame.
unfoldable pub take_frame : PhysMem → Outcome (ℕ × PhysMem)
take_frame s =
    if not (s.first_free == 0)
    then ok (s.first_free, record s { first_free = s.memory s.first_free })
    else if s.avail == s.limit
    then panic
    else ok (s.avail, record s { avail = add32 s.avail frame_size })

-- alloc_frame: the frame's alignment, and its zeroes.
unfoldable pub clear_frame : ℕ × PhysMem → Outcome (ℕ × PhysMem)
clear_frame (p, s) =
    assert (offset p == 0) >> ok (p, record s { memory = bzero s.memory p frame_size })

-- alloc_frame()
unfoldable pub alloc_frame : PhysMem → Outcome (ℕ × PhysMem)
alloc_frame s = take_frame s >>= clear_frame

-- dealloc_frame(p)
unfoldable pub dealloc_frame : PhysMem → ℕ → Outcome PhysMem
dealloc_frame s p =
    assert (offset p == 0)
    >> ok (record s { memory = update s.memory p s.first_free; first_free = p })

-- init(start, size), on the memory that the machine starts with.
unfoldable pub init : Memory → ℕ → ℕ → Outcome PhysMem
init memory start size =
    assert (offset start == 0)
    >> (assert (offset size == 0)
        >> ok (record { memory = memory; first_free = 0; avail = start; limit = add32 start size }))
