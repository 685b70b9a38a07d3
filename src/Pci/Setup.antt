-- ===== src/Pci/Setup.antt =====
-- kernel/pci.cc: what findAC97 leaves of the device that it takes.
use Prim.Native.Nat.{bit_or}
use kernel_development_with.Prelude.{
  ℕ, ◌%◌, ◌*◌, ◌/◌, ◌^◌, ◌<◌, ◌≡◌, ◌≢◌, ap, arith, add32, clear_low,
}
use kernel_development_with.Prelude.Bits.{bit_or_step, bit_or-zero}
use kernel_development_with.Pci.{
  Bus, config_address, half_of, with_half, enable_command, read_dword, read_word, write_word,
  set_up,
}
use kernel_development_with.Threads.{put}
use kernel_development_with.Lock.Owner.{put_self, put_ne}
use kernel_development_with.Pci.Words.{with_half-Half, config_address_sum}

-- The registers of one device are apart.
register_ne :
    (bus device : ℕ)
    → bus < 256
    → device < 32
    → (i : ℕ) → i < 64
    → i ≢ 1
    → config_address bus device 0 (i * 4) ≢ config_address bus device 0 4
register_ne bus device b d i l n = λ e. n (
    omega (
      arith,
      e,
      config_address_sum bus device 0 (i * 4) b d (omega arith) (omega arith),
      config_address_sum bus device 0 4 b d (omega arith) (omega arith),
    ))

command_bound : (c : ℕ) → c < 2 ^ 16 → bit_or c 5 < 2 ^ 16
command_bound c h = omega (
  arith,
  bit_or_step c 5,
  bit_or_step (c / 2) 2,
  bit_or_step (c / 2 / 2) 1,
  bit_or-zero (c / 2 / 2 / 2),
)

command_bits :
    (c : ℕ) → (bit_or c 5 % 2 ≡ 1) × (bit_or c 5 / 2 % 2 ≡ c / 2 % 2) × (bit_or c 5 / 4 % 2 ≡ 1)
command_bits c =
    let e0 = bit_or_step c 5 in
    let e1 = bit_or_step (c / 2) 2 in
    let e2 = bit_or_step (c / 2 / 2) 1 in
    let e3 = bit_or-zero (c / 2 / 2 / 2) in
    (omega (arith, e0), omega (arith, e0, e1), omega (arith, e0, e1, e2, e3))

half_bound : (offset w : ℕ) → half_of offset w < 2 ^ 16
half_bound offset w = ground arith

-- A device keeps the low three bits of a command: I/O space, memory space and bus master. What it
-- makes of the other bits, and of the status in the upper half, is its own.
abbrev pub Commands : Bus → ℕ → Type 0
Commands s address = (w : ℕ) → s.takes address (s.space address) w % 8 ≡ w % 8

-- For a bus and a device in range whose command and status word holds 32 bits, and which keeps
-- the low three bits of a command written to it, whatever it makes of the other bits and of the
-- status, after set_up the bits 0 and 2 of the command register are set and bit 1 is what it was,
-- and the two bases and the control port are those that the registers at 0x10 and 0x14 held
-- before, without their low two bits.
pub set_up-Enabled :
    (s : Bus) (bus device : ℕ)
    → bus < 256
    → device < 32
    → s.space (config_address bus device 0 4) < 2 ^ 32
    → Commands s (config_address bus device 0 4)
    → let f = set_up s (bus, device) in
      let before = (read_word s bus device 0 4).0 in
      let command = (read_word f.bus bus device 0 4).0 in
      (command % 2 ≡ 1)
      × (command / 2 % 2 ≡ before / 2 % 2)
      × (command / 4 % 2 ≡ 1)
      × (f.bar0 ≡ clear_low (read_dword s bus device 0 0x10).0 2)
      × (f.bar1 ≡ add32 (clear_low (read_dword s bus device 0 0x14).0 2) 0x10)
      × (f.gcr ≡ add32 (clear_low (read_dword s bus device 0 0x14).0 2) 0x2c)
unfolding set_up enable_command read_word read_dword write_word
set_up-Enabled s bus device b d l k =
    let i = config_address bus device 0 4 in
    let c = half_of 4 (s.space i) in
    let w = with_half 4 (s.space i) (bit_or c 5) in
    let new = s.takes i (s.space i) w in
    let e : put s.space i new i ≡ new = put_self s.space i new in
    let h =
      (with_half-Half 4 (s.space i) (bit_or c 5) l
        (command_bound c (half_bound 4 (s.space i)))).written in
    let v = command_bits c in
    let p : put s.space i new (config_address bus device 0 (4 * 4))
        ≡ s.space (config_address bus device 0 (4 * 4)) =
      put_ne s.space i (config_address bus device 0 (4 * 4)) new
        (register_ne bus device b d 4 (omega arith) (omega arith)) in
    let q : put s.space i new (config_address bus device 0 (5 * 4))
        ≡ s.space (config_address bus device 0 (5 * 4)) =
      put_ne s.space i (config_address bus device 0 (5 * 4)) new
        (register_ne bus device b d 5 (omega arith) (omega arith)) in
    (
      omega (arith, e, h, k w, v.0),
      omega (arith, e, h, k w, v.1),
      omega (arith, e, h, k w, v.2),
      ap (λ w. clear_low w 2) p,
      ap (λ w. add32 (clear_low w 2) 0x10) q,
      ap (λ w. add32 (clear_low w 2) 0x2c) q,
    )
