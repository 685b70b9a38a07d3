-- ===== src/Sys/Tests.antt =====
-- kernel/sys.cc: concrete calls, and the theorems at them.
use kernel_development_with.Prelude.{
  inl, inr, ℕ, ◌+◌, ◌≡◌, refl, false, if◌then◌else◌, ◌==◌, List, [], ◌∷◌, some, arith, map,
}
use kernel_development_with.Prelude.Outcome.{ok}
use kernel_development_with.Queue
use kernel_development_with.Process
use kernel_development_with.Process.{Process, no_entries, minus_one, first_free}
use kernel_development_with.Ext2.{NodeData}
use kernel_development_with.Ext2.Volume
use kernel_development_with.Ext2.Volume.{Volume}
use kernel_development_with.Ext2.Volume.Paths.{skip_slashes, at_end}
use kernel_development_with.Semaphore
use kernel_development_with.Sys.{Bytes, strlen, fetch, capture, build_stack, total_len, store}
use kernel_development_with.Sys.Strings.{Strings}
use kernel_development_with.Sys.Stack.{Entered, build_stack-Entered}
use kernel_development_with.Sys.Captures.{captures-Strings}
use kernel_development_with.Sys.Calls
use kernel_development_with.Sys.Calls.{Kernel, Around, Reply, returned, serial, sys_handler}
use kernel_development_with.Sys.Audio.{Piece, play_loop}
use kernel_development_with.Sys.Playing.{all_bytes, Timely, play_loop-Timely}
use kernel_development_with.Sys.Guards.{
  sys_handler-bad_pointer, sys_handler-no_file, Opened, open_file-Opened,
}

abbrev zeroes : Bytes
zeroes q = 0

abbrev words : List (List ℕ)
words = (b'l' ∷ b's' ∷ []) ∷ (b'/' ∷ []) ∷ []

build_stack-Entered_example :
    Entered (build_stack zeroes words).0 (build_stack zeroes words).1 words
unfolding total_len
build_stack-Entered_example = build_stack-Entered zeroes words (omega arith)

-- Two arguments, at 5 and at 8.
abbrev text : Bytes
text = store zeroes 5 (b'l' ∷ b's' ∷ 0 ∷ b'/' ∷ 0 ∷ [])

text-Strings : Strings text 5 10 (5 ∷ 8 ∷ []) words
unfolding store
text-Strings = (
  omega arith,
  omega arith,
  (refl, (refl, (refl, tt))),
  (omega arith, omega arith, (refl, (refl, tt)), tt),
)

captures-Strings_example : map (capture 10 text) (5 ∷ 8 ∷ []) ≡ map some words
captures-Strings_example =
    captures-Strings text 5 10 (5 ∷ 8 ∷ []) words text-Strings
      ((omega arith, (omega arith, tt)), ((omega arith, tt), tt)) (omega arith)

abbrev folder : NodeData
folder = record {
  mode = 0x41ed;
  size_low = 24;
  n_links = 2;
  n_sectors = 2;
  direct = 0 ∷ [];
  indirect_1 = 0;
  indirect_2 = 0;
  indirect_3 = 0;
}

abbrev around : Around
around = record {
  config = record { io_apic = 0xfec00000; local_apic = 0xfee00000 };
  ide = record { block_size = 512; size_in_bytes = 512; read_block = λ b. ok [] };
  volume = record {
    block_size = 1024;
    number_of_nodes = 32;
    number_of_blocks = 64;
    inode_size = 128;
    n_groups = 1;
    inode_tables = 5 ∷ [];
    inodes_per_group = 32;
  };
  root = folder;
  inline = λ n. [];
  threads = record {
    is_idle = λ t. t == 8;
    interrupt_esp = λ t. t + 4;
    cr3 = λ t. 4096;
    idle_threads = λ c. 8;
  };
  core = 0;
  exit_value = λ a. a + 1;
  fuel = 4;
}

abbrev kernel : Kernel
kernel = record {
  process = record { files = no_entries; sems = no_entries; children = no_entries; output = 3 };
  files = λ a. serial;
  sems = λ a. Semaphore.make 0;
  machine = record {
    links = λ t. 0;
    ready = Queue.empty;
    zombies = Queue.empty;
    no_preempt = λ t. false;
    active = λ c. 16;
    esp0 = λ c. 0;
    page_directory = λ c. 0;
    jiffies = 7;
  };
  memory = zeroes;
  sent = [];
  fresh = 100;
}

-- read(0, 0x1000, 5)
abbrev low_read : ℕ → ℕ
low_read i = if i == 2 then 0x1000 else if i == 3 then 5 else 0

sys_handler-bad_pointer_example :
    sys_handler around kernel 12 low_read ≡ ok (returned minus_one kernel)
sys_handler-bad_pointer_example =
    sys_handler-bad_pointer around kernel 12 low_read 0x1000 (inl refl) (inl (omega arith))

sys_handler-no_file_example : sys_handler around kernel 11 low_read ≡ ok (returned minus_one kernel)
unfolding Process.get_file Process.get_file_index
sys_handler-no_file_example = sys_handler-no_file around kernel 11 low_read 0 refl (inr refl)

open_file-Opened_example : Opened around kernel 0x80000000 0 folder
unfolding strlen fetch capture Volume.find Volume.find_loop skip_slashes at_end first_free
open_file-Opened_example =
    open_file-Opened around kernel 0x80000000 0 [] folder refl refl refl refl (omega arith)
      (record { files = refl; sems = refl; children = refl }) refl

-- A new semaphore, and a call of up on it.
sem_test : (elim (Calls.sem around kernel 3) as (λ r. ℕ) [ returned r k ↦ r | x ↦ 0 ]) ≡ 0x20000000
unfolding Calls.sem Process.new_semaphore first_free
sem_test = refl

-- Ten million bytes at 192000 bytes a second.
play_loop-Timely_example :
    (ps : List Piece) × (play_loop 4 192000 10000000 7 ≡ ok (1, ps))
    × (all_bytes ps ≡ 10000000)
    × Timely 192000 ps
play_loop-Timely_example =
    play_loop-Timely 192000 (omega arith) (omega arith) 4 10000000 7 (omega arith)
