-- ===== src/Pci/Words.antt =====
-- kernel/pci.cc: a half that is written is read back.
use Prim.Native.Nat.{bit_or}
use kernel_development_with.Prelude.{
  ℕ, zero, suc, ◌+◌, ◌*◌, ◌/◌, ◌%◌, ◌^◌, ◌<◌, ◌≡◌, ◌≢◌, refl, ap, ◌∙◌, low_bits, clear_low, shr,
  arith, eq→==, ne→==, ℕ_discrete,
}
use kernel_development_with.Prelude.Bits.{bit_or_step, bit_or-zero, zero-bit_or}
use kernel_development_with.Threads.{put}
use kernel_development_with.Lock.Owner.{put_self, put_ne}
use kernel_development_with.Pci.{
  Bus, config_address, half_of, with_half, read_word, read_dword, write_word,
}

-- The low k bits are 0, and there are no bits but them.
abbrev Clear : ℕ → ℕ → Type 0
Clear zero a = Unit {0}
Clear (suc k) a = (a % 2 ≡ 0) × Clear k (a / 2)

abbrev Small : ℕ → ℕ → Type 0
Small zero b = b ≡ 0
Small (suc k) b = Small k (b / 2)

bit_or-Clear : (k a b : ℕ) → Clear k a → Small k b → bit_or a b ≡ a + b
bit_or-Clear zero a b c s = let e : bit_or a b ≡ a = rw s (bit_or-zero a) in omega (arith, e, s)
bit_or-Clear (suc k) a b c s =
    omega (arith, bit_or_step a b, bit_or-Clear k (a / 2) (b / 2) c.1 s, c.0)

bit_or-Small : (k a b : ℕ) → Small k a → Clear k b → bit_or a b ≡ a + b
bit_or-Small zero a b s c = let e : bit_or a b ≡ b = rw s (zero-bit_or b) in omega (arith, e, s)
bit_or-Small (suc k) a b s c =
    omega (arith, bit_or_step a b, bit_or-Small k (a / 2) (b / 2) s c.1, c.0)

abbrev times : ℕ → ℕ → ℕ
times zero a = a
times (suc k) a = times k a * 2

times-Clear : (k a : ℕ) → Clear k (times k a)
times-Clear zero a = tt
times-Clear (suc k) a =
    let e : times k a * 2 / 2 ≡ times k a = omega arith in (omega arith, rw e (times-Clear k a))

low_or : (a b : ℕ) → b < 2 ^ 16 → bit_or (a * 2 ^ 16) b ≡ a * 2 ^ 16 + b
low_or a b h =
    let e : a * 2 ^ 16 ≡ times 16 a = omega arith in
    rw e (bit_or-Clear 16 (times 16 a) b (times-Clear 16 a) (omega arith))

high_or : (a b : ℕ) → a < 2 ^ 16 → bit_or a (b * 2 ^ 16) ≡ a + b * 2 ^ 16
high_or a b h =
    let e : b * 2 ^ 16 ≡ times 16 b = omega arith in
    rw e (bit_or-Small 16 a (times 16 b) (omega arith) (times-Clear 16 b))

pub config_address_sum :
    (bus device func offset : ℕ)
    → bus < 256
    → device < 32
    → func < 8
    → offset < 256
    → config_address bus device func offset
      ≡ bus * 2 ^ 16 + device * 2 ^ 11 + func * 2 ^ 8 + clear_low offset 2 + 0x80000000
unfolding config_address
config_address_sum bus device func offset b d f o =
    let x = bus * 2 ^ 16 + device * 2 ^ 11 in
    let y = x + func * 2 ^ 8 in
    let z = y + clear_low offset 2 in
    let e1 = low_or bus (device * 2 ^ 11) (omega arith) in
    let k2 : x ≡ times 11 (bus * 2 ^ 5 + device) = omega arith in
    let e2 : bit_or x (func * 2 ^ 8) ≡ y =
      bit_or-Clear 11 x (func * 2 ^ 8) (rw k2 (times-Clear 11 (bus * 2 ^ 5 + device)))
        (omega arith) in
    let k3 : y ≡ times 8 (bus * 2 ^ 8 + device * 2 ^ 3 + func) = omega arith in
    let e3 : bit_or y (clear_low offset 2) ≡ z =
      bit_or-Clear 8 y (clear_low offset 2)
        (rw k3 (times-Clear 8 (bus * 2 ^ 8 + device * 2 ^ 3 + func))) (omega arith) in
    let e4 : bit_or z 0x80000000 ≡ z + 0x80000000 =
      bit_or-Small 31 z 0x80000000 (omega arith) (times-Clear 31 1) in
    rw (e1, e2, e3, e4) refl

-- The half that is written holds the value, and the other one what it did.
pub record Half (offset word value w : ℕ) : Type 0 where
  pub written : half_of offset w ≡ value
  pub other : half_of (offset + 2) w ≡ half_of (offset + 2) word
  pub fits : w < 2 ^ 32

pub with_half-Half :
    (offset word value : ℕ)
    → word < 2 ^ 32
    → value < 2 ^ 16
    → Half offset word value (with_half offset word value)
with_half-Half offset word value l h = elim (ℕ_discrete (offset / 2 % 2) 0) [
  | yes e ↦
      let f = eq→== (offset / 2 % 2) 0 e in
      let g = ne→== ((offset + 2) / 2 % 2) 0 (omega (arith, e)) in
      rw (f, low_or (shr word 16) value h)
        (record {
          written = rw f (omega (arith, h));
          other = rw g (omega (arith, h));
          fits = omega (arith, h, l);
        })
  | no n ↦
      let f = ne→== (offset / 2 % 2) 0 n in
      let g = eq→== ((offset + 2) / 2 % 2) 0 (omega (arith, n)) in
      rw (f, high_or (low_bits word 16) value (omega arith))
        (record {
          written = rw f (omega (arith, h));
          other = rw g (omega (arith, h));
          fits = omega (arith, h, l);
        })
]

-- What a device keeps is what is written, at one address.
abbrev pub Takes : Bus → ℕ → Type 0
Takes s address = (w : ℕ) → s.takes address (s.space address) w ≡ w

-- At an address whose word holds 32 bits and keeps what is written to it, a 16-bit value that
-- pciConfigWriteWord writes is what pciConfigReadWord reads from there; the other half of the
-- word, and the word at every other address, stay.
pub read_word-write_word :
    (s : Bus) (bus slot func offset value a : ℕ)
    → s.space (config_address bus slot func offset) < 2 ^ 32
    → value < 2 ^ 16
    → Takes s (config_address bus slot func offset)
    → a ≢ config_address bus slot func offset
    → let s' = write_word s bus slot func offset value in
      ((read_word s' bus slot func offset).0 ≡ value)
      × (half_of (offset + 2) (read_dword s' bus slot func offset).0
          ≡ half_of (offset + 2) (read_dword s bus slot func offset).0)
      × (s'.space a ≡ s.space a)
unfolding write_word read_word read_dword
read_word-write_word s bus slot func offset value a l h k n =
    let i = config_address bus slot func offset in
    let w = with_half offset (s.space i) value in
    let e : put s.space i (s.takes i (s.space i) w) i ≡ w =
      put_self s.space i (s.takes i (s.space i) w) ∙ k w in
    let r = with_half-Half offset (s.space i) value l h in
    (
      ap (half_of offset) e ∙ r.written,
      ap (half_of (offset + 2)) e ∙ r.other,
      put_ne s.space i a (s.takes i (s.space i) w) n,
    )
