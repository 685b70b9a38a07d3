-- ===== src/Elf/Image.antt =====
-- kernel/elf.cc: what the loader leaves in memory, against a description of a program's image.
use kernel_development_with.Prelude.{
  ℕ, zero, suc, ◌+◌, ◌-◌, ◌^◌, ◌≤◌, ◌<◌, ◌≡◌, ◌≢◌, inl, inr, refl, ap, ◌∙◌, true, false,
  if◌then◌else◌, ltb, leb, ◌==◌, ◌&&◌, arith, add32, sub32, min, eq→==, ne→==, dec_lt, Bool-cases,
  ge→ltb, ℕ_discrete, Bool-cases,
}
use kernel_development_with.Prelude.Outcome.{ok, ◌>>=◌}
use kernel_development_with.Threads.{put}
use kernel_development_with.BlockIo.{BlockDevice}
use kernel_development_with.BlockIo.Slices.{slice}
use kernel_development_with.BlockIo.Reads.{Serves, read_all-slice, read_thing-slice}
use kernel_development_with.Vmm.{Config}
use kernel_development_with.Sys.{Bytes, store}
use kernel_development_with.Sys.Memory.{add32_next}
use kernel_development_with.Elf.{
  elf_header, ProgramHeader, program_header, is_executable, clear, put_bytes, bad_segment,
  load_segment, load_segments, load,
}

-- A segment in memory: the file's bytes, then zeroes.
abbrev pub image : (ℕ → ℕ) → ProgramHeader → Bytes → Bytes
image content ph m q =
    if leb ph.vaddr q && ltb q (ph.vaddr + ph.filesz)
    then content (ph.offset + (q - ph.vaddr))
    else if leb ph.vaddr q && ltb q (ph.vaddr + ph.memsz)
    then 0
    else m q

-- The program headers from `hoff` on, and the image they describe.
abbrev pub header_at : (ℕ → ℕ) → ℕ → ProgramHeader
header_at content hoff = program_header (slice content hoff 32)

abbrev pub images : (ℕ → ℕ) → ℕ → ℕ → ℕ → Bytes → Bytes
images content zero phentsize hoff m = m
images content (suc left) phentsize hoff m =
    let ph = header_at content hoff in
    images content left phentsize (add32 hoff phentsize)
      (if ph.kind == 1 then image content ph m else m)

window_step :
    (f : ℕ → ℕ) (a n : ℕ) (m : Bytes) (p q : ℕ)
    → (if leb (p + 1) q && ltb q (p + 1 + n) then f (suc a + (q - (p + 1))) else put m p (f a) q)
      ≡ (if leb p q && ltb q (p + suc n) then f (a + (q - p)) else m q)
window_step f a n m p q = elim (ℕ_discrete p q) [
  | yes e ↦ let g : f (a + (q - p)) ≡ f a = ap f (omega (arith, e)) in ground arith
  | no e ↦ elim (dec_lt p q) [
    | yes l ↦
        let g : f (suc a + (q - (p + 1))) ≡ f (a + (q - p)) = ap f (omega (arith, l)) in
        rw g (ground arith)
    | no l ↦ ground arith
  ]
]

store-slice :
    (f : ℕ → ℕ) (a n : ℕ) (m : Bytes) (p q : ℕ)
    → p + n ≤ 2 ^ 32
    → store m p (slice f a n) q ≡ (if leb p q && ltb q (p + n) then f (a + (q - p)) else m q)
unfolding store
store-slice f a zero m p q h = ground arith
store-slice f a (suc zero) m p q h =
    let e : put m p (f a) q ≡ (
        if leb (p + 1) q && ltb q (p + 1 + 0) then f (suc a + (q - (p + 1))) else put m p (f a) q) =
      ground arith in
    e ∙ window_step f a 0 m p q
store-slice f a (suc (suc n)) m p q h =
    let k = p + 1 in
    ap (λ z. store (put m p (f a)) z (slice f (suc a) (suc n)) q) (add32_next p 1 (omega arith))
    ∙ store-slice f (suc a) (suc n) (put m p (f a)) (p + 1) q (omega arith)
    ∙ window_step f a (suc n) m p q

-- A segment that may be loaded: its place is the user's, and its bytes are in the file.
pub record Loadable (config : Config) (size : ℕ) (ph : ProgramHeader) : Type 0 where
  pub above : 2 ^ 31 ≤ ph.vaddr
  pub not_io : ph.vaddr ≢ config.io_apic
  pub not_local : ph.vaddr ≢ config.local_apic
  pub longer : ph.filesz ≤ ph.memsz
  pub below : ph.vaddr + ph.memsz < 2 ^ 32
  pub in_file : ph.offset + ph.filesz ≤ size

-- Every program header is in the file, and its segment may be loaded.
abbrev pub AllLoadable : Config → ℕ → (ℕ → ℕ) → ℕ → ℕ → ℕ → Type 0
AllLoadable config size content zero phentsize hoff = Unit {0}
AllLoadable config size content (suc left) phentsize hoff =
    (hoff + 32 ≤ size)
    × (((header_at content hoff).kind ≡ 1) → Loadable config size (header_at content hoff))
    × AllLoadable config size content left phentsize (add32 hoff phentsize)

sub32_next : (a b : ℕ) → b ≤ a → a < 2 ^ 32 → sub32 a b ≡ a - b
sub32_next a b h k = ground arith

cleared_at :
    (q p n : ℕ) → q < 2 ^ 32 → p + n < 2 ^ 32 → ltb (sub32 q p) n ≡ (leb p q && ltb q (p + n))
cleared_at q p n h k = ground arith

module _ (config : Config) (file : BlockDevice) (content : ℕ → ℕ)
    (serves : Serves file content) where
  bad_segment-Loadable :
      (ph : ProgramHeader)
      → Loadable config file.size_in_bytes ph
      → bad_segment config file ph ≡ false
  unfolding bad_segment
  bad_segment-Loadable ph L =
      let a = L.above in
      let b = L.below in
      let c = L.longer in
      rw
        (
          ge→ltb ph.vaddr 0x80000000 (omega arith),
          ne→== ph.vaddr config.io_apic L.not_io,
          ne→== ph.vaddr config.local_apic L.not_local,
          ge→ltb 0xffffffff (add32 ph.vaddr ph.filesz) (omega arith),
        )
        refl

  image-clear :
      (ph : ProgramHeader) (m : Bytes)
      → ph.filesz ≤ ph.memsz
      → ph.vaddr + ph.memsz < 2 ^ 32
      → (q : ℕ) → q < 2 ^ 32
      → clear
          (store m ph.vaddr (slice content ph.offset ph.filesz))
          (add32 ph.vaddr ph.filesz)
          (sub32 ph.memsz ph.filesz)
          q
        ≡ image content ph m q
  image-clear ph m l b q k =
      let e = store-slice content ph.offset ph.filesz m ph.vaddr q (omega arith) in
      let d = add32_next ph.vaddr ph.filesz (omega arith) in
      let d' = sub32_next ph.memsz ph.filesz l (omega arith) in
      let c = cleared_at q (ph.vaddr + ph.filesz) (ph.memsz - ph.filesz) k (omega arith) in
      rw (d, d', c, e) (ground arith)

  load_segment-image :
      (ph : ProgramHeader) (m : Bytes)
      → ((ph.kind ≡ 1) → Loadable config file.size_in_bytes ph)
      → (m' : Bytes) × (load_segment config file m ph ≡ ok m')
        × ((q : ℕ) → q < 2 ^ 32 → m' q ≡ (if ph.kind == 1 then image content ph m else m) q)
  unfolding load_segment put_bytes
  load_segment-image ph m L = elim (ℕ_discrete ph.kind 1) [
    | no n ↦ (m, rw (ne→== ph.kind 1 n) refl, λ q k. rw (ne→== ph.kind 1 n) refl)
    | yes e ↦
        let F = L e in
        let a = F.in_file in
        let b = F.below in
        let c = F.longer in
        let s = serves.fits in
        let n : min ph.filesz (file.size_in_bytes - ph.offset) ≡ ph.filesz = omega arith in
        (
          clear (store m ph.vaddr (slice content ph.offset ph.filesz)) (add32 ph.vaddr ph.filesz)
              (sub32 ph.memsz ph.filesz),
          rw
              (
                eq→== ph.kind 1 e,
                bad_segment-Loadable ph F,
                read_all-slice file content serves ph.offset ph.filesz (omega arith) (omega arith),
                n,
                ◌>>=◌,
              )
              refl,
          λ q k. image-clear ph m c b q k ∙ rw (eq→== ph.kind 1 e) refl,
        )
  ]

  image-same :
      (ph : ProgramHeader) (m m' : Bytes) (q : ℕ)
      → m' q ≡ m q
      → image content ph m' q ≡ image content ph m q
  image-same ph m m' q h = ground arith

  images-same :
      (left phentsize hoff : ℕ) (m m' : Bytes)
      → ((q : ℕ) → q < 2 ^ 32 → m' q ≡ m q)
      → (q : ℕ) → q < 2 ^ 32
      → images content left phentsize hoff m' q ≡ images content left phentsize hoff m q
  images-same zero phentsize hoff m m' h q k = h q k
  images-same (suc left) phentsize hoff m m' h q k =
      let ph = header_at content hoff in
      images-same left phentsize (add32 hoff phentsize)
        (if ph.kind == 1 then image content ph m else m)
        (if ph.kind == 1 then image content ph m' else m')
        (λ r l.
          let e = h r l in
          elim (Bool-cases (ph.kind == 1)) [
            | inl g ↦ rw g (image-same ph m m' r e)
            | inr g ↦ rw g e
          ])
        q k

  pub load_segments-images :
      (left phentsize hoff : ℕ) (m : Bytes)
      → AllLoadable config file.size_in_bytes content left phentsize hoff
      → (m' : Bytes) × (load_segments config file left phentsize hoff m ≡ ok m')
        × ((q : ℕ) → q < 2 ^ 32 → m' q ≡ images content left phentsize hoff m q)
  unfolding load_segments
  load_segments-images zero phentsize hoff m A = (m, refl, λ q k. refl)
  load_segments-images (suc left) phentsize hoff m (i, L, A) =
      let ph = header_at content hoff in
      let (m1, e1, h1) = load_segment-image ph m L in
      let (m2, e2, h2) = load_segments-images left phentsize (add32 hoff phentsize) m1 A in
      (
        m2,
        rw (read_thing-slice file content serves hoff 32 (omega arith) i, ◌>>=◌, e1, e2) refl,
        λ q k.
            h2 q k
            ∙ images-same left phentsize (add32 hoff phentsize)
                (if ph.kind == 1 then image content ph m else m) m1 h1 q k,
      )

  -- For a file that starts with the header of an executable, whose program headers are in the
  -- file and whose segments of kind 1 are in the file, in user memory and at least as long in
  -- memory as in the file, load returns the entry point without a panic, and every byte of memory
  -- is what the description of the segments, one after the other, says: a byte of the file, a 0
  -- after those, or what stood there.
  pub load-images :
      (m : Bytes)
      → 52 ≤ file.size_in_bytes
      → is_executable (elf_header (slice content 0 52)) ≡ true
      → AllLoadable config file.size_in_bytes content
          (elf_header (slice content 0 52)).phnum
          (elf_header (slice content 0 52)).phentsize
          (elf_header (slice content 0 52)).phoff
      → (m' : Bytes) × (load config file m ≡ ok ((elf_header (slice content 0 52)).entry, m'))
        × ((q : ℕ)
            → q < 2 ^ 32
            → m' q
              ≡ images content
                  (elf_header (slice content 0 52)).phnum
                  (elf_header (slice content 0 52)).phentsize
                  (elf_header (slice content 0 52)).phoff
                  m
                  q)
  unfolding load
  load-images m s x A =
      let h = elf_header (slice content 0 52) in
      let (m', e, r) = load_segments-images h.phnum h.phentsize h.phoff m A in
      (m', rw (read_thing-slice file content serves 0 52 (omega arith) s, ◌>>=◌, x, e) refl, r)
