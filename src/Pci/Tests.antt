-- ===== src/Pci/Tests.antt =====
-- kernel/pci.cc: a bus with one AC97, the device 4 of bus 0, whose vendor word cannot be written,
-- and whose command word keeps three bits of a command and its own status.
use kernel_development_with.Prelude.{
  ℕ, ◌+◌, ◌*◌, ◌/◌, ◌%◌, ◌^◌, ◌<◌, ◌≡◌, ◌≢◌, ◌⊎◌, refl, arith, add32, clear_low, if◌then◌else◌,
  ◌==◌, some, none,
}
use kernel_development_with.Prelude.Outcome.{ok, panic}
use kernel_development_with.Pci.{
  Bus, config_address, half_of, is_ac97, scan_devices, find_ac97, read_dword, read_word, write_word,
  set_up, enable_command,
}
use kernel_development_with.Pci.Words.{Takes, read_word-write_word}
use kernel_development_with.Pci.Scan.{BusIn, find_ac97-First}
use kernel_development_with.Pci.Setup.{Commands, set_up-Enabled}

-- The first configuration word of the device.
abbrev first_word : ℕ
first_word = 0x80002000

abbrev bus : Bus
bus = record {
  selected = 0;
  space = λ a.
      if a == first_word
      then 0x24158086
      else if a == first_word + 4
      then 0x02800002
      else if a == first_word + 0x10
      then 0xc001
      else if a == first_word + 0x14
      then 0xc401
      else 0xffffffff;
  takes = λ a old new.
      if a == first_word
      then old
      else if a == first_word + 4
      then old / 2 ^ 16 * 2 ^ 16 + new % 8
      else new;
}

command_test : config_address 0 4 0 4 ≡ first_word + 4
unfolding config_address
command_test = refl

scan_test : scan_devices bus 0 32 0 ≡ some (0, 4)
unfolding scan_devices is_ac97 read_word config_address
scan_test = refl

set_up_test : (set_up bus (0, 4)).bus.space (first_word + 4) ≡ 0x02800007
unfolding set_up enable_command write_word read_word read_dword config_address
set_up_test = refl

command_Commands : Commands bus (config_address 0 4 0 4)
unfolding config_address
command_Commands w = omega arith

line_Takes : Takes bus (config_address 0 4 0 0x3c)
unfolding config_address
line_Takes w = refl

line_bound : bus.space (config_address 0 4 0 0x3c) < 2 ^ 32
unfolding config_address
line_bound = omega arith

command_bound : bus.space (config_address 0 4 0 4) < 2 ^ 32
unfolding config_address
command_bound = omega arith

other_word : first_word ≢ config_address 0 4 0 0x3c
unfolding config_address
other_word = λ e. omega (arith, e)

read_word-write_word_example :
    let s' = write_word bus 0 4 0 0x3c 7 in
    ((read_word s' 0 4 0 0x3c).0 ≡ 7)
    × (half_of (0x3c + 2) (read_dword s' 0 4 0 0x3c).0
        ≡ half_of (0x3c + 2) (read_dword bus 0 4 0 0x3c).0)
    × (s'.space first_word ≡ bus.space first_word)
read_word-write_word_example =
    read_word-write_word bus 0 4 0 0x3c 7 first_word line_bound (omega arith) line_Takes other_word

find_ac97-First_example :
    ((find_ac97 bus ≡ panic) × BusIn bus 0 255 none)
    ⊎ ((b : ℕ) × (d : ℕ) × (find_ac97 bus ≡ ok (set_up bus (b, d))) × BusIn bus 0 255 (some (b, d)))
find_ac97-First_example = find_ac97-First bus

set_up-Enabled_example :
    let f = set_up bus (0, 4) in
    let before = (read_word bus 0 4 0 4).0 in
    let command = (read_word f.bus 0 4 0 4).0 in
    (command % 2 ≡ 1)
    × (command / 2 % 2 ≡ before / 2 % 2)
    × (command / 4 % 2 ≡ 1)
    × (f.bar0 ≡ clear_low (read_dword bus 0 4 0 0x10).0 2)
    × (f.bar1 ≡ add32 (clear_low (read_dword bus 0 4 0 0x14).0 2) 0x10)
    × (f.gcr ≡ add32 (clear_low (read_dword bus 0 4 0 0x14).0 2) 0x2c)
set_up-Enabled_example =
    set_up-Enabled bus 0 4 (omega arith) (omega arith) command_bound command_Commands
