-- ===== src/Sys/Guards.antt =====
-- kernel/sys.cc: what sysHandler does with a bad pointer or an unknown handle, and a file from
-- `open` on.
use kernel_development_with.Prelude.{
  ℕ, zero, suc, ◌+◌, ◌^◌, ◌≤◌, ◌<◌, ◌≡◌, ◌≢◌, ◌⊎◌, inl, inr, refl, sym, Bool, true, false,
  if◌then◌else◌, ◌==◌, ◌||◌, Option, none, some, List, arith, subst, set, get_or, get_or-set_self,
  eq→==, ne→==, Bool-cases, ℕ_discrete,
}
use kernel_development_with.Prelude.Outcome.{ok, ◌>>=◌}
use kernel_development_with.Threads.{put}
use kernel_development_with.Process
use kernel_development_with.Process.{Process, minus_one, first_free, get_file_index}
use kernel_development_with.Process.Handles.{
  IsProcess, get_file_index-handle, get_file_index-eq_some, first_free-eq_some,
}
use kernel_development_with.Vmm.{Config}
use kernel_development_with.Ext2.{NodeData, is_symlink}
use kernel_development_with.Ext2.Volume
use kernel_development_with.OpenFile.{open_node}
use kernel_development_with.Sys.{capture}
use kernel_development_with.Sys.Calls
use kernel_development_with.Sys.Calls.{
  Kernel, Around, Reply, returned, File, opened, serial, bad_pointer, file_of, sys_handler,
}

-- The argument of a call that is a pointer: of write, wait and read the second, of execl and open
-- the first.
abbrev pub pointer_of : ℕ → (ℕ → ℕ) → Option ℕ
pointer_of n args =
    if (n == 1) || (n == 8) || (n == 12)
    then some (args 2)
    else if (n == 9) || (n == 10)
    then some (args 1)
    else none

pointer_of-cases :
    (n : ℕ) (args : ℕ → ℕ) (p : ℕ)
    → pointer_of n args ≡ some p
    → ((n ≡ 1) × (args 2 ≡ p))
      ⊎ ((n ≡ 8) × (args 2 ≡ p))
      ⊎ ((n ≡ 12) × (args 2 ≡ p))
      ⊎ ((n ≡ 9) × (args 1 ≡ p))
      ⊎ ((n ≡ 10) × (args 1 ≡ p))
pointer_of-cases n args p h = ground arith

-- The argument of a call that is the handle of a file.
abbrev pub handle_of : ℕ → (ℕ → ℕ) → Option ℕ
handle_of n args =
    if (n == 1) || (n == 11) || (n == 12) || (n == 13) || (n == 14) then some (args 1) else none

handle_of-cases :
    (n : ℕ) (args : ℕ → ℕ) (p : ℕ)
    → handle_of n args ≡ some p
    → ((n ≡ 1) ⊎ (n ≡ 11) ⊎ (n ≡ 12) ⊎ (n ≡ 13) ⊎ (n ≡ 14)) × (args 1 ≡ p)
handle_of-cases n args p h = ground arith

or-true : (a b : Bool) → b ≡ true → (a || b) ≡ true
or-true a b h = ground arith

-- The addresses that a call takes from no program: below the user's memory, and the APICs'.
abbrev pub Protected : Config → ℕ → Type 0
Protected config p = (p < 2 ^ 31) ⊎ (p ≡ config.io_apic) ⊎ (p ≡ config.local_apic)

-- What a call is given as a pointer: the argument that is one, and of execl the words of the list,
-- which a 0 ends, and which is shorter than 99.
abbrev pub Given : ℕ → (ℕ → ℕ) → ℕ → Type 0
Given n args p =
    (pointer_of n args ≡ some p)
    ⊎ ((n ≡ 9) × ((i : ℕ) × (i < 99) × (args (i + 2) ≡ p) × ((j : ℕ) → j ≤ i → args (j + 2) ≢ 0)))

bad_pointer-Protected :
    (around : Around) (p : ℕ) → Protected around.config p → bad_pointer around p ≡ true
bad_pointer-Protected around p h = ground arith

-- A bad pointer in the list, before its end, ends the loop over the list.
collect-Protected :
    (around : Around) (args : ℕ → ℕ) (left i argc : ℕ)
    → argc ≤ i
    → i < argc + left
    → bad_pointer around (args (i + 2)) ≡ true
    → ((j : ℕ) → argc ≤ j → j ≤ i → args (j + 2) ≢ 0)
    → Calls.collect around left args argc ≡ none
unfolding Calls.collect
collect-Protected around args zero i argc m l b h = absurd (omega arith)
collect-Protected around args (suc left) i argc m l b h =
    let f = ne→== (args (argc + 2)) 0 (h argc (omega arith) m) in
    elim (ℕ_discrete i argc) [
      | yes e ↦ rw (f, subst (λ z. bad_pointer around (args (z + 2)) ≡ true) e b) refl
      | no n ↦
          let ih =
            collect-Protected around args left i (argc + 1) (omega (arith, n)) (omega arith) b
              (λ j c d. h j (omega arith) d) in
          elim (Bool-cases (bad_pointer around (args (argc + 2)))) [
            | inl g ↦ rw (f, g) refl
            | inr g ↦ rw (f, g, ih) refl
          ]
    ]

-- No file has the handle.
get_file-absent :
    (p : Process) (fd : ℕ)
    → (10 ≤ fd) ⊎ (get_or p.files fd none ≡ none)
    → Process.get_file p fd ≡ none
unfolding Process.get_file
get_file-absent p fd h = step (get_file_index fd) refl
  where
    step :
        (r : Option ℕ)
        → get_file_index fd ≡ r
        → elim r [ none ↦ none | some i ↦ get_or p.files fd none ] ≡ none
    step none e = refl
    step (some i) e =
        let b = get_file_index-eq_some fd i e in
        elim h [ inl l ↦ absurd (omega (arith, b)) | inr q ↦ q ]

module _ (around : Around) (k : Kernel) where
  pointer-bad :
      (n : ℕ) (args : ℕ → ℕ) (p : ℕ)
      → pointer_of n args ≡ some p
      → bad_pointer around p ≡ true
      → sys_handler around k n args ≡ ok (returned minus_one k)
  unfolding sys_handler Calls.write Calls.wait Calls.execl Calls.open_file Calls.read
  pointer-bad n args p h b = elim (pointer_of-cases n args p h) [
    | inl (e, f) ↦ let c = subst (λ z. bad_pointer around z ≡ true) (sym f) b in rw (e, c) refl
    | inr (inl (e, f)) ↦
        let c = subst (λ z. bad_pointer around z ≡ true) (sym f) b in
        rw (e, or-true (args 2 == 0) (bad_pointer around (args 2)) c) refl
    | inr (inr (inl (e, f))) ↦
        let c = subst (λ z. bad_pointer around z ≡ true) (sym f) b in rw (e, c) refl
    | inr (inr (inr (inl (e, f)))) ↦
        let c = subst (λ z. bad_pointer around z ≡ true) (sym f) b in rw (e, c) refl
    | inr (inr (inr (inr (e, f)))) ↦
        let c = subst (λ z. bad_pointer around z ≡ true) (sym f) b in rw (e, c) refl
  ]

  -- The calls write, wait, execl, open and read, with a pointer below 2 ^ 31 or the address of an
  -- APIC, and execl with such a pointer among the first 99 words of its list and before its end,
  -- return -1 and change nothing, whatever their other arguments are.
  pub sys_handler-bad_pointer :
      (n : ℕ) (args : ℕ → ℕ) (p : ℕ)
      → Given n args p
      → Protected around.config p
      → sys_handler around k n args ≡ ok (returned minus_one k)
  unfolding sys_handler Calls.execl
  sys_handler-bad_pointer n args p (inl h) b =
      pointer-bad n args p h (bad_pointer-Protected around p b)
  sys_handler-bad_pointer n args p (inr (e, (i, l, f, z))) b =
      let c =
        collect-Protected around args 99 i 0 (omega arith) (omega (arith, l))
          (subst (λ q. bad_pointer around q ≡ true) (sym f) (bad_pointer-Protected around p b))
          (λ j m d. z j d) in
      elim (Bool-cases (bad_pointer around (args 1))) [
        | inl g ↦ rw (e, g) refl
        | inr g ↦ rw (e, g, c) refl
      ]

  -- The calls write, len, read, seek and play_audio, with a handle of 10 or more, or one at which
  -- the table of files has no entry, return -1 and change nothing, whatever their other arguments
  -- are.
  pub sys_handler-no_file :
      (n : ℕ) (args : ℕ → ℕ) (fd : ℕ)
      → handle_of n args ≡ some fd
      → (10 ≤ fd) ⊎ (get_or k.process.files fd none ≡ none)
      → sys_handler around k n args ≡ ok (returned minus_one k)
  unfolding sys_handler Calls.write Calls.len Calls.read Calls.seek Calls.play_audio
  sys_handler-no_file n args fd h b =
      let (o, f) = handle_of-cases n args fd h in
      let c =
        subst (λ z. Process.get_file k.process z ≡ none) (sym f) (get_file-absent k.process fd b) in
      elim o [
        | inl e ↦ elim (Bool-cases (bad_pointer around (args 2))) [
          | inl g ↦ rw (e, g) refl
          | inr g ↦ rw (e, g, c) refl
        ]
        | inr (inl e) ↦ rw (e, Calls.len, c) refl
        | inr (inr (inl e)) ↦ elim (Bool-cases (bad_pointer around (args 2))) [
          | inl g ↦ rw (e, g) refl
          | inr g ↦ rw (e, g, c) refl
        ]
        | inr (inr (inr (inl e))) ↦ rw (e, Calls.seek, c) refl
        | inr (inr (inr (inr e))) ↦ rw (e, Calls.play_audio, c) refl
      ]

  -- open, of a path that leads to a node that is no link, while a file's entry is free.
  pub record Opened (filename i : ℕ) (node : NodeData) : Type 0 where
    pub after : Kernel
    pub opens : Calls.open_file around k filename ≡ ok (returned i after)
    pub leads : file_of around after i ≡ some (k.fresh, opened (open_node node))
    pub measures : Calls.len around after i ≡ returned node.size_low after
    pub memory_kept : after.memory ≡ k.memory

  follow-plain :
      (fuel : ℕ) (node : NodeData)
      → 0 < fuel
      → is_symlink node ≡ false
      → Calls.follow around fuel (some node) ≡ ok (some node)
  unfolding Calls.follow
  follow-plain zero node h s = elim h [ ]
  follow-plain (suc fuel) node h s = rw s refl

  -- The kernel with a node in the file entry i.
  abbrev holding : ℕ → NodeData → Kernel
  holding i node = record k {
    process = record k.process { files = set k.process.files i (some k.fresh) };
    files = put k.files k.fresh (opened (open_node node));
    fresh = k.fresh + 1;
  }

  add_file-holding :
      (i : ℕ) (node : NodeData)
      → first_free k.process.files 0 ≡ some i
      → Calls.add_file around k node ≡ returned i (holding i node)
  unfolding Calls.add_file Process.set_file
  add_file-holding i node e = rw (Calls.add_file, Process.set_file, e) refl

  get_file-holding :
      (i : ℕ) (node : NodeData)
      → IsProcess k.process
      → i < 10
      → Process.get_file (holding i node).process i ≡ some k.fresh
  unfolding Process.get_file
  get_file-holding i node P h =
      let l = P.files in
      rw (Process.get_file, get_file_index-handle i h)
        (get_or-set_self k.process.files i (some k.fresh) none (omega arith))

  put_self : (f : ℕ → File) (a : ℕ) (x : File) → put f a x a ≡ x
  put_self f a x = rw (eq→== a a refl) refl

  file_of-holding :
      (i : ℕ) (node : NodeData)
      → IsProcess k.process
      → i < 10
      → file_of around (holding i node) i ≡ some (k.fresh, opened (open_node node))
  file_of-holding i node P h =
      rw (file_of, get_file-holding i node P h, put_self k.files k.fresh (opened (open_node node)))
        refl

  -- With a good pointer to a path that leads to a node that is no symbolic link, and a free file
  -- entry, open returns the index of the first such entry; afterwards the handle leads to the
  -- node at offset 0, len of it returns the size of the node, and user memory is as before.
  pub open_file-Opened :
      (filename i : ℕ) (path : List ℕ) (node : NodeData)
      → bad_pointer around filename ≡ false
      → capture around.fuel k.memory filename ≡ some path
      → Volume.find around.ide around.volume around.root path ≡ ok (some node)
      → is_symlink node ≡ false
      → 0 < around.fuel
      → IsProcess k.process
      → first_free k.process.files 0 ≡ some i
      → Opened filename i node
  unfolding Calls.open_file Calls.open_path Calls.len
  open_file-Opened filename i path node g c f s h P e =
      let w = P.files in
      let (a, b, d) = first_free-eq_some k.process.files 0 i e in
      record {
        after = holding i node;
        opens =
            rw (g, c, f, ◌>>=◌, follow-plain around.fuel node h s, add_file-holding i node e) refl;
        leads = file_of-holding i node P (omega arith);
        measures =
            rw
              (
                Calls.len,
                file_of,
                get_file-holding i node P (omega arith),
                put_self k.files k.fresh (opened (open_node node)),
              )
              refl;
        memory_kept = refl;
      }
