-- ===== src/Elf.antt =====
-- kernel/elf.h and kernel/elf.cc: the headers of an executable, as the bytes of the file, and the
-- loader. The file is a device; user memory is the one of kernel/sys.cc.
pub mod Image
mod Tests
use kernel_development_with.Prelude.{
  ℕ, zero, suc, ◌+◌, ◌-◌, ◌*◌, ◌/◌, ◌%◌, ◌^◌, Bool, true, false, if◌then◌else◌, ltb, leb, ◌==◌, not,
  ◌&&◌, ◌||◌, Option, none, some, List, [], ◌∷◌, length, add32, sub32,
}
use kernel_development_with.Prelude.Outcome.{Outcome, ok, panic, spinning, ◌>>=◌, ◌>>◌}
use kernel_development_with.BlockIo.{BlockDevice, read_thing, read_all}
use kernel_development_with.Ext2.Volume.{field}
use kernel_development_with.Vmm.{Config}
use kernel_development_with.Sys.{Bytes, store}

abbrev pub minus_one : ℕ
minus_one = 2 ^ 32 - 1

-- ElfHeader: the fields that are read.
pub record ElfHeader : Type 0 where
  pub magic0 : ℕ
  pub magic1 : ℕ
  pub magic2 : ℕ
  pub magic3 : ℕ
  pub cls : ℕ
  pub encoding : ℕ
  pub header_version : ℕ
  pub abi : ℕ
  pub kind : ℕ
  pub version : ℕ
  pub entry : ℕ
  pub phoff : ℕ
  pub phentsize : ℕ
  pub phnum : ℕ

unfoldable pub elf_header : List ℕ → ElfHeader
elf_header bytes = record {
  magic0 = field bytes 0 1;
  magic1 = field bytes 1 1;
  magic2 = field bytes 2 1;
  magic3 = field bytes 3 1;
  cls = field bytes 4 1;
  encoding = field bytes 5 1;
  header_version = field bytes 6 1;
  abi = field bytes 7 1;
  kind = field bytes 16 2;
  version = field bytes 20 4;
  entry = field bytes 24 4;
  phoff = field bytes 28 4;
  phentsize = field bytes 42 2;
  phnum = field bytes 44 2;
}

-- ProgramHeader: the fields that are read.
pub record ProgramHeader : Type 0 where
  pub kind : ℕ
  pub offset : ℕ
  pub vaddr : ℕ
  pub filesz : ℕ
  pub memsz : ℕ

unfoldable pub program_header : List ℕ → ProgramHeader
program_header bytes = record {
  kind = field bytes 0 4;
  offset = field bytes 4 4;
  vaddr = field bytes 8 4;
  filesz = field bytes 16 4;
  memsz = field bytes 20 4;
}

-- The tests that exec and load both make on the header.
unfoldable pub is_executable : ElfHeader → Bool
is_executable h =
    if not (h.magic0 == 0x7f)
      || not (h.magic1 == 0x45)
      || not (h.magic2 == 0x4c)
      || not (h.magic3 == 0x46)
    then false
    else if not (h.encoding == 1)
        || not (h.cls == 1)
        || not (h.abi == 0)
        || not (h.header_version == 1)
    then false
    else if not (h.version == 1) || not (h.kind == 2)
    then false
    else not (h.phoff == 0)

-- bzero(p, n): the bytes from p on, around the end of memory if need be
abbrev pub clear : Bytes → ℕ → ℕ → Bytes
clear m p n q = if ltb (sub32 q p) n then 0 else m q

-- What read_all puts in memory: nothing if it fails.
unfoldable pub put_bytes : Bytes → ℕ → Option (List ℕ) → Bytes
put_bytes m p none = m
put_bytes m p (some bytes) = store m p bytes

module _ (config : Config) (file : BlockDevice) where
  -- The tests on a segment's place. The sum is one of 32 bits.
  unfoldable pub bad_segment : ProgramHeader → Bool
  bad_segment ph =
      ltb ph.vaddr 0x80000000
      || ltb 0xffffffff (add32 ph.vaddr ph.filesz)
      || (ph.vaddr == config.io_apic)
      || (ph.vaddr == config.local_apic)

  -- load: one round of the loop
  unfoldable pub load_segment : Bytes → ProgramHeader → Outcome Bytes
  load_segment m ph =
      if not (ph.kind == 1)
      then ok m
      else if bad_segment ph
      then panic
      else read_all file ph.offset ph.filesz >>= λ reply.
          ok (
            clear (put_bytes m ph.vaddr reply) (add32 ph.vaddr ph.filesz)
              (sub32 ph.memsz ph.filesz))

  -- load: the loop, with so many program headers left
  unfoldable pub load_segments : ℕ → ℕ → ℕ → Bytes → Outcome Bytes
  load_segments zero phentsize hoff m = ok m
  load_segments (suc left) phentsize hoff m = do
    bytes ← read_thing file hoff 32
    m' ← load_segment m (program_header bytes)
    load_segments left phentsize (add32 hoff phentsize) m'

  -- load(file): the entry point, or -1
  unfoldable pub load : Bytes → Outcome (ℕ × Bytes)
  load m = read_thing file 0 52 >>= λ bytes.
      let h = elf_header bytes in
      if not (is_executable h)
      then ok (minus_one, m)
      else load_segments h.phnum h.phentsize h.phoff m >>= λ m'. ok (h.entry, m')
