-- ===== src/Elf/Tests.antt =====
-- kernel/elf.cc: a program of one segment, loaded.
use kernel_development_with.Prelude.{
  ℕ, ◌*◌, ◌^◌, ◌<◌, ◌≡◌, refl, false, List, [], ◌∷◌, get_or, arith,
}
use kernel_development_with.Prelude.Outcome.{Outcome, ok, ◌>>=◌}
use kernel_development_with.BlockIo
use kernel_development_with.BlockIo.{BlockDevice}
use kernel_development_with.BlockIo.Slices.{slice}
use kernel_development_with.BlockIo.Reads.{Serves}
use kernel_development_with.Vmm.{Config}
use kernel_development_with.Sys.{Bytes, store}
use kernel_development_with.Elf.{
  elf_header, program_header, is_executable, bad_segment, load_segment, load_segments, load,
  put_bytes,
}
use kernel_development_with.Elf.Image.{images, load-images}

-- The header, one program header, and the two bytes of the segment, which is four bytes in memory.
abbrev program : List ℕ
program =
    0x7f ∷ 0x45 ∷ 0x4c ∷ 0x46 ∷ 1 ∷ 1 ∷ 1 ∷ 0 ∷ 0 ∷ 0 ∷ 0 ∷ 0 ∷ 0 ∷ 0 ∷ 0 ∷ 0 ∷ 2 ∷ 0 ∷ 3 ∷ 0 ∷ 1
    ∷ 0 ∷ 0 ∷ 0 ∷ 0 ∷ 0 ∷ 0 ∷ 0x80 ∷ 52 ∷ 0 ∷ 0 ∷ 0 ∷ 0 ∷ 0 ∷ 0 ∷ 0 ∷ 0 ∷ 0 ∷ 0 ∷ 0 ∷ 52 ∷ 0 ∷ 32
    ∷ 0 ∷ 1 ∷ 0 ∷ 0 ∷ 0 ∷ 0 ∷ 0 ∷ 0 ∷ 0 ∷ 1 ∷ 0 ∷ 0 ∷ 0 ∷ 84 ∷ 0 ∷ 0 ∷ 0 ∷ 0 ∷ 0 ∷ 0 ∷ 0x80 ∷ 0 ∷ 0
    ∷ 0 ∷ 0 ∷ 2 ∷ 0 ∷ 0 ∷ 0 ∷ 4 ∷ 0 ∷ 0 ∷ 0 ∷ 0 ∷ 0 ∷ 0 ∷ 0 ∷ 0 ∷ 0 ∷ 0 ∷ 0 ∷ 11 ∷ 22 ∷ []

abbrev content : ℕ → ℕ
content i = get_or program i 0

abbrev disk : BlockDevice
disk = record {
  block_size = 86;
  size_in_bytes = 86;
  read_block = λ b. ok (slice content (b * 86) 86);
}

disk-Serves : Serves disk content
disk-Serves = record {
  some_block = omega arith;
  small_block = omega arith;
  fits = omega arith;
  blocks = λ b h. refl;
}

abbrev config : Config
config = record { io_apic = 0xfec00000; local_apic = 0xfee00000 }

abbrev ones : Bytes
ones q = 1

load-images_example :
    (m' : Bytes) × (load config disk ones ≡ ok ((elf_header (slice content 0 52)).entry, m'))
    × ((q : ℕ)
        → q < 2 ^ 32
        → m' q
          ≡ images content
              (elf_header (slice content 0 52)).phnum
              (elf_header (slice content 0 52)).phentsize
              (elf_header (slice content 0 52)).phoff
              ones
              q)
unfolding elf_header is_executable program_header
load-images_example = load-images config disk content disk-Serves ones (omega arith) refl (
  omega arith,
  (λ e. record {
    above = omega arith;
    not_io = λ z. ground arith;
    not_local = λ z. ground arith;
    longer = omega arith;
    below = omega arith;
    in_file = omega arith;
  }),
  tt,
)

abbrev loaded : ℕ → Outcome ℕ
loaded q = load config disk ones >>= λ r. ok (r.1 q)

load_bytes : loaded 0x80000001 ≡ ok 22
unfolding load elf_header is_executable program_header load_segments load_segment bad_segment
    put_bytes store BlockIo.read_thing BlockIo.read_all BlockIo.read_loop BlockIo.read
    BlockIo.read_part
load_bytes = refl

load_zeroes : loaded 0x80000002 ≡ ok 0
unfolding load elf_header is_executable program_header load_segments load_segment bad_segment
    put_bytes store BlockIo.read_thing BlockIo.read_all BlockIo.read_loop BlockIo.read
    BlockIo.read_part
load_zeroes = refl

-- The sum in the test on a segment is one of 32 bits, so the test on it never holds.
segment_wraps :
    bad_segment config disk
      (record { kind = 1; offset = 0; vaddr = 0xfffffff0; filesz = 32; memsz = 32 })
    ≡ false
unfolding bad_segment
segment_wraps = refl
