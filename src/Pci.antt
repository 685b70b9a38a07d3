-- ===== src/Pci.antt =====
-- kernel/pci.h and kernel/pci.cc: access to the PCI configuration space, and the search for the
-- AC97 device. The space is the 32-bit word at each configuration address. What a device keeps
-- of a word that is written is its own, a part of the state. What is written to other ports is a list of ports and values.
pub mod Words
pub mod Scan
pub mod Setup
mod Tests
use Prim.Native.Nat.{bit_or}
use kernel_development_with.Prelude.{
  ℕ, zero, suc, ◌+◌, ◌-◌, ◌*◌, ◌/◌, ◌%◌, ◌^◌, Bool, true, false, if◌then◌else◌, ltb, leb, ◌==◌, not,
  ◌&&◌, ◌||◌, Option, none, some, List, [], ◌∷◌, length, add32, low_bits, clear_low, shr,
}
use kernel_development_with.Prelude.Outcome.{Outcome, ok, panic, ◌>>=◌}
use kernel_development_with.Threads.{put}

-- The address that CONFIG_ADDRESS holds, the space, and what the device at an address keeps when its
-- word is one and another is written.
pub record Bus : Type 0 where
  pub selected : ℕ
  pub space : ℕ → ℕ
  pub takes : ℕ → ℕ → ℕ → ℕ

abbrev pub vendor : ℕ
vendor = 0x8086

abbrev pub device_number : ℕ
device_number = 0x2415

-- pciConfigAddress(bus, device, func, offset)
unfoldable pub config_address : ℕ → ℕ → ℕ → ℕ → ℕ
config_address bus device func offset =
    bit_or
      (bit_or (bit_or (bit_or (bus * 2 ^ 16) (device * 2 ^ 11)) (func * 2 ^ 8))
        (clear_low offset 2))
      0x80000000

-- outl(CONFIG_ADDRESS, address), inl(CONFIG_DATA) and outl(CONFIG_DATA, data)
abbrev pub select : Bus → ℕ → Bus
select s address = record s { selected = address }

abbrev pub data_in : Bus → ℕ
data_in s = s.space s.selected

abbrev pub data_out : Bus → ℕ → Bus
data_out s word = record s { space = put s.space s.selected (s.takes s.selected (data_in s) word) }

-- pciConfigReadDWord
unfoldable pub read_dword : Bus → ℕ → ℕ → ℕ → ℕ → ℕ × Bus
read_dword s bus slot func offset =
    let s' = select s (config_address bus slot func offset) in (data_in s', s')

-- (data >> ((offset & 2) * 8)) & 0xFFFF
abbrev pub half_of : ℕ → ℕ → ℕ
half_of offset word = if offset / 2 % 2 == 0 then low_bits word 16 else low_bits (shr word 16) 16

-- (current & ~mask) | (value << ((offset & 2) * 8))
abbrev pub with_half : ℕ → ℕ → ℕ → ℕ
with_half offset current value =
    if offset / 2 % 2 == 0
    then bit_or (clear_low current 16) value
    else bit_or (low_bits current 16) (value * 2 ^ 16)

-- pciConfigReadWord
unfoldable pub read_word : Bus → ℕ → ℕ → ℕ → ℕ → ℕ × Bus
read_word s bus slot func offset =
    let s' = select s (config_address bus slot func offset) in (half_of offset (data_in s'), s')

-- pciConfigWriteWord
unfoldable pub write_word : Bus → ℕ → ℕ → ℕ → ℕ → ℕ → Bus
write_word s bus slot func offset value =
    let s' = select s (config_address bus slot func offset) in
    data_out s' (with_half offset (data_in s') value)

-- enablePCICommandRegister
unfoldable pub enable_command : Bus → ℕ → ℕ → ℕ → Bus
enable_command s bus device func =
    let (command, s') = read_word s bus device func 4 in
    write_word s' bus device func 4 (bit_or command 5)

-- findAC97: the test on one device
unfoldable pub is_ac97 : Bus → ℕ → ℕ → Bool
is_ac97 s bus device =
    let found = (read_word s bus device 0 0).0 in
    if found == 0xffff
    then false
    else (found == vendor) && ((read_word s bus device 0 2).0 == device_number)

-- findAC97: the loop over devices, and the one over buses, with so many left
unfoldable pub scan_devices : Bus → ℕ → ℕ → ℕ → Option (ℕ × ℕ)
scan_devices s bus zero device = none
scan_devices s bus (suc left) device =
    let rest = scan_devices s bus left (suc device) in
    if is_ac97 s bus device then some (bus, device) else rest

unfoldable pub scan_buses : Bus → ℕ → ℕ → Option (ℕ × ℕ)
scan_buses s zero bus = none
scan_buses s (suc left) bus =
    let rest = scan_buses s left (suc bus) in
    elim (scan_devices s bus 32 0) [ none ↦ rest | some found ↦ some found ]

-- outl, outw and outb: a port and what goes to it
pub data Sent : Type 0 where
  outl outw outb : ℕ → ℕ → Sent

-- What findAC97 leaves: the space, BAR0, BAR1 and GCR, and what initializeCodec writes.
pub record Found : Type 0 where
  pub bus : Bus
  pub bar0 : ℕ
  pub bar1 : ℕ
  pub gcr : ℕ
  pub sent : List Sent

-- initializeCodec, less the DMA buffers
unfoldable pub codec_writes : ℕ → ℕ → ℕ → List Sent
codec_writes bar0 bar1 gcr =
    outl gcr 2 ∷ outb (add32 bar1 0x0b) 2 ∷ outw bar0 0xff ∷ outw (add32 bar0 0x18) 0 ∷ []

unfoldable pub set_up : Bus → ℕ × ℕ → Found
set_up s (bus, device) =
    let s1 = enable_command s bus device 0 in
    let (nam, s2) = read_dword s1 bus device 0 0x10 in
    let (nabm, s3) = read_dword s2 bus device 0 0x14 in
    let bar0 = clear_low nam 2 in
    let bar1 = add32 (clear_low nabm 2) 0x10 in
    let gcr = add32 (clear_low nabm 2) 0x2c in
    record { bus = s3; bar0 = bar0; bar1 = bar1; gcr = gcr; sent = codec_writes bar0 bar1 gcr }

-- findAC97()
unfoldable pub find_ac97 : Bus → Outcome Found
find_ac97 s = elim (scan_buses s 255 0) [ none ↦ panic | some found ↦ ok (set_up s found) ]
