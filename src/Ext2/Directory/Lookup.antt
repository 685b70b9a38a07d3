-- ===== src/Ext2/Directory/Lookup.antt =====
-- What `entries` and `find` of kernel/ext2.h and kernel/ext2.cc make of a well-formed directory.
use kernel_development_with.Prelude.{
  ℕ, zero, suc, ◌+◌, ◌%◌, ◌^◌, ◌≤◌, ◌<◌, ◌≡◌, refl, ap, ◌∙◌, true, if◌then◌else◌, ltb, List, [],
  ◌∷◌, arith, length, add32, lt→ltb, Option, none, some, Bool-cases, inl, inr,
}
use kernel_development_with.Prelude.Outcome.{ok, panic}
use kernel_development_with.K.{streq}
use kernel_development_with.BlockIo.{BlockDevice}
use kernel_development_with.BlockIo.Slices.{slice}
use kernel_development_with.BlockIo.Reads.{Serves, read_thing-slice}
use kernel_development_with.Ext2.{NodeData, is_dir, node_device}
use kernel_development_with.Ext2.Words.{le_number}
use kernel_development_with.Ext2.Directory.{
  Entry, read_entry, entries_loop, entries, find, entry_count,
}

-- One entry stands at an offset of the directory, inside it.
pub record Stands (content : ℕ → ℕ) (size offset : ℕ) (e : Entry) : Type 0 where
  pub inode : le_number (slice content offset 4) ≡ e.inode
  pub total : le_number (slice content (offset + 4) 2) ≡ e.total
  pub name_length : le_number (slice content (offset + 6) 1) ≡ length e.name
  pub name : slice content (offset + 8) (length e.name) ≡ e.name
  pub fits : 8 + length e.name ≤ e.total
  pub inside : offset + e.total ≤ size

-- The entries stand one behind the other from an offset to the end.
abbrev pub Directory : (ℕ → ℕ) → ℕ → ℕ → List Entry → Type 0
Directory content size offset [] = offset ≡ size
Directory content size offset (e ∷ es) =
    Stands content size offset e × Directory content size (offset + e.total) es

abbrev pub visit {ℓ} : {S : Type ℓ} → (ℕ → List ℕ → S → S) → List Entry → S → S
visit work [] s = s
visit work (e ∷ es) s = visit work es (work e.inode e.name s)

module _ (dev : BlockDevice) (content : ℕ → ℕ) (serves : Serves dev content) {S : Type 0}
    (work : ℕ → List ℕ → S → S) where
  read_entry-Stands :
      (offset : ℕ) (e : Entry)
      → Stands content dev.size_in_bytes offset e
      → read_entry dev offset ≡ ok e
  unfolding read_entry
  read_entry-Stands offset e st =
      let a : add32 offset 4 ≡ offset + 4 = omega (arith, st.fits, st.inside, serves.fits) in
      let b : add32 offset 6 ≡ offset + 6 = omega (arith, st.fits, st.inside, serves.fits) in
      let c : add32 offset 8 ≡ offset + 8 = omega (arith, st.fits, st.inside, serves.fits) in
      rw (
        read_thing-slice dev content serves offset 4 (omega arith)
            (omega (arith, st.fits, st.inside)),
        a,
        read_thing-slice dev content serves (offset + 4) 2 (omega arith)
            (omega (arith, st.fits, st.inside)),
        b,
        read_thing-slice dev content serves (offset + 6) 1 (omega arith)
            (omega (arith, st.fits, st.inside)),
        c,
        st.name_length,
        read_thing-slice dev content serves (offset + 8) (length e.name)
            (omega (arith, st.fits, st.inside, serves.fits)) (omega (arith, st.fits, st.inside)),
        st.inode,
        st.total,
        st.name,
      )

  entries_loop-entry :
      (fuel offset : ℕ) (s : S) (e : Entry)
      → Stands content dev.size_in_bytes offset e
      → entries_loop dev work (suc fuel) offset s
        ≡ entries_loop dev work fuel (offset + e.total) (work e.inode e.name s)
  unfolding entries_loop
  entries_loop-entry fuel offset s e st =
      let d : add32 offset e.total ≡ offset + e.total = omega (arith, st.inside, serves.fits) in
      let b : ltb offset dev.size_in_bytes ≡ true =
        lt→ltb offset dev.size_in_bytes (omega (arith, st.fits, st.inside)) in
      ground (arith, read_entry-Stands offset e st)

  entries_loop-end :
      (fuel offset : ℕ) (s : S)
      → offset ≡ dev.size_in_bytes
      → entries_loop dev work (suc fuel) offset s ≡ ok s
  unfolding entries_loop
  entries_loop-end fuel offset s e = ground arith

  entries_loop-visit :
      (fuel offset : ℕ) (s : S) (es : List Entry)
      → Directory content dev.size_in_bytes offset es
      → dev.size_in_bytes < fuel + offset
      → offset ≤ dev.size_in_bytes
      → entries_loop dev work fuel offset s ≡ ok (visit work es s)
  entries_loop-visit zero offset s es d lt le = absurd (omega arith)
  entries_loop-visit (suc fuel) offset s [] d lt le = entries_loop-end fuel offset s d
  entries_loop-visit (suc fuel) offset s (e ∷ es) d lt le =
      entries_loop-entry fuel offset s e d.0
      ∙ entries_loop-visit fuel (offset + e.total) (work e.inode e.name s) es d.1
          (omega (arith, d.0.fits)) d.0.inside

  entries-visit :
      (s : S) (es : List Entry)
      → Directory content dev.size_in_bytes 0 es
      → entries dev work true s ≡ ok (visit work es s)
  unfolding entries
  entries-visit s es d =
      entries_loop-visit (suc dev.size_in_bytes) 0 s es d (omega arith) (omega arith)

-- The i-node of the last entry with the name.
abbrev pub last_match : List ℕ → List Entry → Option ℕ
last_match name [] = none
last_match name (e ∷ es) = elim (last_match name es) [
  | some i ↦ some i
  | none ↦ if streq name e.name then some e.inode else none
]

abbrev pub or_else : Option ℕ → ℕ → ℕ
or_else none d = d
or_else (some i) d = i

abbrev keep : List ℕ → ℕ → List ℕ → ℕ → ℕ
keep name number nm out = if streq name nm then number else out

visit-last_match :
    (name : List ℕ) (es : List Entry) (out : ℕ)
    → visit (keep name) es out ≡ or_else (last_match name es) out
visit-last_match name [] out = refl
visit-last_match name (e ∷ es) out =
    visit-last_match name es (keep name e.inode e.name out) ∙ ground arith

visit-count :
    (es : List Entry) (k : ℕ)
    → k + length es < 2 ^ 32
    → visit {S = ℕ} (λ _ _ count. (count + 1) % 2 ^ 32) es k ≡ k + length es
visit-count [] k h = omega arith
visit-count (e ∷ es) k h =
    let a : (k + 1) % 2 ^ 32 ≡ k + 1 = omega arith in
    rw a (omega (arith, visit-count es (k + 1) (omega arith)))

module _ (ide : BlockDevice) (block_size : ℕ) (node : NodeData) (content : ℕ → ℕ)
    (serves : Serves (node_device ide block_size node) content) where
  -- In a well-formed directory find returns, with no endless loop, the i-node of the last entry
  -- with the name, and 0 if no entry has it; it panics on a node that is no directory, and only
  -- then.
  pub find-last_match :
      (name : List ℕ) (es : List Entry)
      → Directory content node.size_low 0 es
      → find ide block_size node name
        ≡ (if is_dir node then ok (or_else (last_match name es) 0) else panic)
  unfolding find
  find-last_match name es d = elim (Bool-cases (is_dir node)) [
    | inl dir ↦ rw dir (
        entries-visit (node_device ide block_size node) content serves (keep name) 0 es d
        ∙ ap ok (visit-last_match name es 0))
    | inr no_dir ↦ rw no_dir
  ]

  -- In a well-formed directory of fewer than 2 ^ 32 entries entry_count counts them.
  pub entry_count-length :
      (es : List Entry)
      → is_dir node ≡ true
      → Directory content node.size_low 0 es
      → length es < 2 ^ 32
      → entry_count ide block_size node ≡ ok (length es)
  unfolding entry_count
  entry_count-length es dir d h = rw dir (
      entries-visit (node_device ide block_size node) content serves
        (λ _ _ count. (count + 1) % 2 ^ 32) 0 es d
      ∙ ap ok (visit-count es 0 (omega arith) ∙ omega arith))
