-- ===== src/Sys/Calls.antt =====
-- kernel/sys.cc: sysHandler, over the process that makes the call, its open files and semaphores,
-- and user memory. `args` are the words from the user's stack pointer on; an object is its
-- address, `fresh` the address of the next one allocated. Reading through a null node is a reply
-- of its own.
use kernel_development_with.Prelude.{
  ℕ, zero, suc, ◌+◌, Bool, if◌then◌else◌, ltb, ◌==◌, not, ◌||◌, Option, none, some, List, [], ◌∷◌,
  ◌++◌, length,
}
use kernel_development_with.Prelude.Outcome.{Outcome, ok, panic, spinning, ◌>>=◌}
use kernel_development_with.Threads.{Threads, Machine, Pass, put}
use kernel_development_with.Semaphore
use kernel_development_with.Semaphore.{Semaphore, World, Down, passed, blocked}
use kernel_development_with.Process
use kernel_development_with.Process.{Process, minus_one}
use kernel_development_with.BlockIo.{BlockDevice}
use kernel_development_with.Ext2.{NodeData, is_symlink}
use kernel_development_with.Ext2.Volume
use kernel_development_with.Ext2.Volume.{Volume}
use kernel_development_with.OpenFile
use kernel_development_with.OpenFile.{OpenFile, Reading, open_node}
use kernel_development_with.Vmm.{Config}
use kernel_development_with.Sys
use kernel_development_with.Sys.{Bytes, capture, store}

-- What a file reference leads to: an open file, or the serial line.
pub data File : Type 0 where
  opened : OpenFile → File
  serial : File

pub record Kernel : Type 0 where
  pub process : Process
  pub files : ℕ → File
  pub sems : ℕ → Semaphore
  pub machine : Machine
  pub memory : Bytes
  pub sent : List ℕ
  pub fresh : ℕ

-- How a call goes on: it returns; the process stops with a status; a child is made, and the parent
-- returns; the thread blocks; a program is started with a path and arguments; the machine is shut
-- down; a file is played, as Sys.Audio has it; a null node is used.
pub data Reply : Type 0 where
  returned : ℕ → Kernel → Reply
  stopped : ℕ → Reply
  forked : ℕ → Option Process → Kernel → Reply
  waiting : Pass (Outcome World) → Reply
  executing : ℕ → List ℕ → Reply
  shut_down : Reply
  playing : OpenFile → Kernel → Reply
  faulted : Reply

-- The system's files, its threads and the core that makes the call. `inline` gives the 60 bytes of
-- a node from `direct0` on, `exit_value` what the future of a child is set to, `input` the byte
-- that the serial line gets.
pub record Around : Type 0 where
  pub config : Config
  pub ide : BlockDevice
  pub volume : Volume
  pub root : NodeData
  pub inline : NodeData → List ℕ
  pub threads : Threads
  pub core : ℕ
  pub exit_value : ℕ → ℕ
  pub fuel : ℕ

module _ (around : Around) where
  open around use {config, ide, volume, root, inline, threads, core, exit_value, fuel}

  -- The test on a pointer that a call is given.
  abbrev pub bad_pointer : ℕ → Bool
  bad_pointer p = ltb p 0x80000000 || (p == config.io_apic) || (p == config.local_apic)

  -- getFile, as the file it leads to
  abbrev pub file_of : Kernel → ℕ → Option (ℕ × File)
  file_of k fd = elim (Process.get_file k.process fd) [ none ↦ none | some a ↦ some (a, k.files a) ]

  -- case 1: write
  unfoldable pub write_file : Kernel → ℕ → ℕ → ℕ × File → Reply
  write_file k buf nbyte (a, opened f) = returned (OpenFile.write f) k
  write_file k buf nbyte (a, serial) =
      if nbyte == 0
      then returned 0 k
      else returned 1 (record k { sent = k.sent ++ k.memory buf ∷ [] })

  unfoldable pub write : Kernel → ℕ → ℕ → ℕ → Reply
  write k fd buf nbyte = if bad_pointer buf then returned minus_one k else elim (file_of k fd) [
    | none ↦ returned minus_one k
    | some file ↦ write_file k buf nbyte file
  ]

  -- case 2: fork. The child's future is the next object.
  unfoldable pub fork : Kernel → Reply
  fork k =
      let (id, child, parent) = Process.fork k.process k.fresh in
      forked id child (record k { process = parent; fresh = k.fresh + 1 })

  -- case 3: sem
  unfoldable pub sem : Kernel → ℕ → Reply
  sem k init =
      let (id, p) = Process.new_semaphore k.process k.fresh in
      returned id (record k {
        process = p;
        sems = put k.sems k.fresh (Semaphore.make init);
        fresh = k.fresh + 1;
      })

  -- case 4 and case 5: up and down
  abbrev pub world : Kernel → ℕ → World
  world k a = record { machine = k.machine; sem = k.sems a }

  abbrev pub with_world : Kernel → ℕ → World → Kernel
  with_world k a w = record k { machine = w.machine; sems = put k.sems a w.sem }

  unfoldable pub up : Kernel → ℕ → Reply
  up k id = elim (Process.get_semaphore k.process id) [
    | none ↦ returned minus_one k
    | some a ↦ returned 0 (with_world k a (Semaphore.up threads (world k a)))
  ]

  unfoldable pub went_down : Kernel → ℕ → Down → Reply
  went_down k a (passed w) = returned 0 (with_world k a w)
  went_down k a (blocked pass) = waiting pass

  unfoldable pub down : Kernel → ℕ → Reply
  down k id = elim (Process.get_semaphore k.process id) [
    | none ↦ returned minus_one k
    | some a ↦ went_down k a (Semaphore.down threads core (world k a))
  ]

  -- case 6: close
  unfoldable pub close : Kernel → ℕ → Reply
  close k id = let (r, p) = Process.close k.process id in returned r (record k { process = p })

  -- case 8: wait. The child's exit value is written through the pointer.
  unfoldable pub wait : Kernel → ℕ → ℕ → Reply
  wait k id ptr =
      if (ptr == 0) || bad_pointer ptr
      then returned minus_one k
      else (let (r, v, p) = Process.wait k.process id exit_value in
          returned r (record k {
            process = p;
            memory = elim v [ none ↦ k.memory | some x ↦ Sys.store_word k.memory ptr x ];
          }))

  -- case 9: execl. The loop over the arguments' pointers, from number `argc` on: `some none` is a
  -- bad pointer.
  unfoldable pub collect : ℕ → (ℕ → ℕ) → ℕ → Option (List ℕ)
  collect zero args argc = some []
  collect (suc left) args argc =
      let rest = collect left args (argc + 1) in
      if args (argc + 2) == 0
      then some []
      else if bad_pointer (args (argc + 2))
      then none
      else elim rest [ none ↦ none | some ps ↦ some (args (argc + 2) ∷ ps) ]

  unfoldable pub execl : Kernel → (ℕ → ℕ) → Outcome Reply
  execl k args =
      if bad_pointer (args 1) then ok (returned minus_one k) else elim (collect 99 args 0) [
        | none ↦ ok (returned minus_one k)
        | some argv ↦ if length argv == 99 then panic else ok (executing (args 1) argv)
      ]

  -- case 10: open. The loop over symbolic links: `none` is a null node that is used.
  unfoldable pub follow : ℕ → Option NodeData → Outcome (Option NodeData)
  follow zero start = spinning
  follow (suc fuel) none = ok none
  follow (suc fuel) (some node) =
      if not (is_symlink node)
      then ok (some node)
      else Volume.get_symbol ide volume (inline node) node >>= λ target.
          Volume.find ide volume root target >>= λ next. follow fuel next

  unfoldable pub add_file : Kernel → NodeData → Reply
  add_file k node =
      let (fd, p) = Process.set_file k.process k.fresh in
      returned fd (record k {
        process = p;
        files = put k.files k.fresh (opened (open_node node));
        fresh = k.fresh + 1;
      })

  unfoldable pub open_path : Kernel → List ℕ → Outcome Reply
  open_path k path = Volume.find ide volume root path >>= λ found. elim found [
    | none ↦ ok (returned minus_one k)
    | some node ↦ follow fuel (some node) >>= λ last. elim last [
      | none ↦ ok faulted
      | some target ↦ ok (add_file k target)
    ]
  ]

  unfoldable pub open_file : Kernel → ℕ → Outcome Reply
  open_file k filename =
      if bad_pointer filename
      then ok (returned minus_one k)
      else elim (capture fuel k.memory filename) [ none ↦ spinning | some path ↦ open_path k path ]

  -- case 11: len
  unfoldable pub len : Kernel → ℕ → Reply
  len k fd = elim (file_of k fd) [
    | none ↦ returned minus_one k
    | some (a, opened f) ↦ returned (OpenFile.size f) k
    | some (a, serial) ↦ returned 0x7fffffff k
  ]

  -- case 12: read
  unfoldable pub read : Kernel → ℕ → ℕ → ℕ → Outcome Reply
  read k fd buf nbytes =
      if bad_pointer buf then ok (returned minus_one k) else elim (file_of k fd) [
        | none ↦ ok (returned minus_one k)
        | some (a, serial) ↦ ok (returned minus_one k)
        | some (a, opened f) ↦ OpenFile.read ide volume.block_size f nbytes >>= λ r. ok (
            returned r.result (record k {
              files = put k.files a (opened r.file);
              memory = store k.memory buf r.bytes;
            }))
      ]

  -- case 13: seek
  unfoldable pub seek : Kernel → ℕ → ℕ → Reply
  seek k fd offset = elim (file_of k fd) [
    | none ↦ returned minus_one k
    | some (a, serial) ↦ returned minus_one k
    | some (a, opened f) ↦
        let (r, f') = OpenFile.seek f offset in
        returned r (record k { files = put k.files a (opened f') })
  ]

  -- case 14: play_audio, up to the search of the header
  unfoldable pub play_audio : Kernel → ℕ → Reply
  play_audio k fd = elim (file_of k fd) [
    | none ↦ returned minus_one k
    | some (a, serial) ↦ returned minus_one k
    | some (a, opened f) ↦ playing f k
  ]

  -- sysHandler
  unfoldable pub sys_handler : Kernel → ℕ → (ℕ → ℕ) → Outcome Reply
  sys_handler k n args =
      if n == 0
      then ok (stopped (args 1))
      else if n == 1
      then ok (write k (args 1) (args 2) (args 3))
      else if n == 2
      then ok (fork k)
      else if n == 3
      then ok (sem k (args 1))
      else if n == 4
      then ok (up k (args 1))
      else if n == 5
      then ok (down k (args 1))
      else if n == 6
      then ok (close k (args 1))
      else if n == 7
      then ok shut_down
      else if n == 8
      then ok (wait k (args 1) (args 2))
      else if n == 9
      then execl k args
      else if n == 10
      then open_file k (args 1)
      else if n == 11
      then ok (len k (args 1))
      else if n == 12
      then read k (args 1) (args 2) (args 3)
      else if n == 13
      then ok (seek k (args 1) (args 2))
      else if n == 14
      then ok (play_audio k (args 1))
      else ok (returned minus_one k)
