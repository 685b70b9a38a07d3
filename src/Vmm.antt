-- ===== src/Vmm.antt =====
-- kernel/vmm.cc: page directories. The kernel reaches every frame at its own address, so the
-- tables are words of the physical memory that kernel/physmem.cc hands out; an entry is a frame's
-- address with its low bits. A page directory is used by the threads of one process; invlpg, which
-- drops a stale translation of the core, is not part of the state.
pub mod Entries
pub mod Mapping
pub mod Growth
pub mod Elsewhere
pub mod Calls
pub mod Faults
pub mod Unmapping
mod Tests
use Prim.Native.Nat.{bit_or}
use kernel_development_with.Prelude.{
  ℕ, ◌+◌, ◌-◌, ◌*◌, ◌/◌, ◌%◌, ◌^◌, Bool, if◌then◌else◌, ltb, leb, ◌==◌, ◌||◌, not, Option, none,
  some, low_bits, clear_low, shr,
}
use kernel_development_with.Prelude.Outcome.{Outcome, ok, panic, ◌>>=◌, ◌>>◌, assert}
use kernel_development_with.Queue.{update}
use kernel_development_with.PhysMem.{PhysMem, Memory, alloc_frame, dealloc_frame, framedown}

-- What vmm.cc reads of kConfig.
pub record Config : Type 0 where
  pub io_apic : ℕ
  pub local_apic : ℕ

-- pd[i] and pt[i]: an entry is a word of 4 bytes.
abbrev pub entry : Memory → ℕ → ℕ → ℕ
entry m table i = m (table + 4 * i)

abbrev pub set_entry : PhysMem → ℕ → ℕ → ℕ → PhysMem
set_entry s table i e = record s { memory = update s.memory (table + 4 * i) e }

-- (e & 1) == 0, and e & 0xFFFFF000.
abbrev pub absent : ℕ → Bool
absent e = low_bits e 1 == 0

abbrev pub target : ℕ → ℕ
target e = clear_low e 12

-- pdi and pti of an address.
abbrev pub directory_index : ℕ → ℕ
directory_index va = shr va 22

abbrev pub table_index : ℕ → ℕ
table_index va = low_bits (shr va 12) 10

-- How the processor translates an address by a page table, and by a page directory: to its frame.
abbrev pub page : ℕ → Option ℕ
page pte = if absent pte then none else some (target pte)

unfoldable pub translate : Memory → ℕ → ℕ → Option ℕ
translate m pd va =
    let pde : ℕ = entry m pd (directory_index va) in
    if absent pde then none else page (entry m (target pde) (table_index va))

module _ (config : Config) where
  open config use {io_apic, local_apic}

  -- is_special(va)
  abbrev pub is_special : ℕ → Bool
  is_special va = ltb va 0x80000000 || (va == io_apic) || (va == local_apic)

  -- The low bits that map gives an entry: user access only outside the shared addresses.
  abbrev pub entry_bits : ℕ → ℕ
  entry_bits va = if is_special va then 3 else 7

  -- map: the page directory's entry, with a new page table if there was none.
  unfoldable pub with_table : ℕ → ℕ → PhysMem → Outcome (ℕ × PhysMem)
  with_table pd va s =
      let pde : ℕ = entry s.memory pd (directory_index va) in
      if absent pde
      then (alloc_frame s >>= λ r. ok (
        bit_or r.0 (entry_bits va),
        set_entry r.1 pd (directory_index va) (bit_or r.0 (entry_bits va)),
      ))
      else ok (pde, s)

  -- map: the page table's entry.
  unfoldable pub set_page : ℕ → ℕ → ℕ × PhysMem → Outcome PhysMem
  set_page va pa (pde, s) =
      ok (set_entry s (target pde) (table_index va) (bit_or pa (entry_bits va)))

  -- map(pd, va, pa)
  unfoldable pub map : ℕ → ℕ → ℕ → PhysMem → Outcome PhysMem
  map pd va pa s = with_table pd va s >>= set_page va pa

  -- unmap: the page table of a present directory entry.
  unfoldable pub unmap_page : ℕ → ℕ → PhysMem → Outcome PhysMem
  unmap_page table va s =
      let pte : ℕ = entry s.memory table (table_index va) in
      if absent pte then ok s else dealloc_frame (set_entry s table (table_index va) 0) (target pte)

  -- unmap(pd, va)
  unfoldable pub unmap : ℕ → ℕ → PhysMem → Outcome PhysMem
  unmap pd va s =
      if is_special va
      then ok s
      else (let pde : ℕ = entry s.memory pd (directory_index va) in
          if absent pde then ok s else unmap_page (target pde) va s)

  -- vmm_pageFault(va_) by a thread whose process has the page directory `pd` and whose save area has
  -- `saved`, on a core whose page directory register has `cr3`: `none` where the process exits and
  -- the thread stops.
  unfoldable pub page_fault : ℕ → ℕ → ℕ → ℕ → PhysMem → Outcome (Option PhysMem)
  page_fault cr3 saved pd va_ s =
      assert (pd == cr3)
      >> assert (saved == cr3)
      >> let va : ℕ = framedown va_ in
        if leb 0x80000000 va
        then (alloc_frame s >>= λ r. map pd va r.0 r.1 >>= λ t. ok (some t))
        else ok none
