-- ===== src/Vmm/Calls.antt =====
-- kernel/vmm.cc: map, unmap and the page fault.
use Prim.Native.Nat.{bit_or}
use kernel_development_with.Prelude.{
  ℕ, suc, ◌+◌, ◌*◌, ◌%◌, ◌^◌, ◌≤◌, ◌<◌, ◌≡◌, inl, inr, refl, ap, ◌∙◌, true, false, some, List, ◌∷◌,
  length, Bool-cases,
}
use kernel_development_with.Prelude.Outcome.{ok}
use kernel_development_with.PhysMem.{PhysMem}
use kernel_development_with.PhysMem.Frames.{Frames}
use kernel_development_with.PhysMem.Client.{alloc_frame-Granted}
use kernel_development_with.Vmm.{
  Config, entry, set_entry, absent, target, directory_index, table_index, page, translate,
  with_table, set_page, map, entry_bits,
}
use kernel_development_with.Vmm.Entries.{target-bit_or, absent-bit_or}
use kernel_development_with.Vmm.Mapping.{Space, changed_page, translate-written, written-Space}
use kernel_development_with.Vmm.Growth.{grown-Space, grown-present, grown-own, grown-translate}

-- Page frames and page tables in use, and what the allocator has.
pub record Stands (start limit : ℕ) (s : PhysMem) (pd : ℕ) (live : List ℕ) : Type 0 where
  pub free : List ℕ
  pub frames : Frames start s free live
  pub limit_is : s.limit ≡ limit
  pub space : Space s.memory pd live

-- What map promises: the page of `va` is translated to the frame, and every other page as before.
pub record Maps (pd va pa : ℕ) (s t : PhysMem) : Type 0 where
  pub translation :
      (other : ℕ)
      → other < 2 ^ 32
      → translate t.memory pd other ≡ changed_page other va (some pa) (translate s.memory pd other)
  pub in_use : (live : List ℕ) × Space t.memory pd live

module _ (config : Config) where
  set_page-Maps :
      (s : PhysMem) (pd va pa : ℕ) (live : List ℕ)
      → Space s.memory pd live
      → va < 2 ^ 32
      → pa % 4096 ≡ 0
      → absent (entry s.memory pd (directory_index va)) ≡ false
      → (t : PhysMem) × (set_page config va pa (entry s.memory pd (directory_index va), s) ≡ ok t)
        × Maps pd va pa s t
  unfolding set_page
  set_page-Maps s pd va pa live f h a p =
      let e : ℕ = bit_or pa (entry_bits config va) in
      let g : page e ≡ some pa =
        rw (absent-bit_or config va pa a, target-bit_or config va pa a) refl in
      let t : PhysMem =
        set_entry s (target (entry s.memory pd (directory_index va))) (table_index va) e in
      (
        t,
        refl,
        record {
          translation = λ other l. rw g at (translate-written s.memory pd live f va e h p other l);
          in_use = (live, written-Space s.memory pd live f va e h p);
        },
      )

  module _ (start limit : ℕ) (s : PhysMem) (pd va pa : ℕ) (live : List ℕ)
      (f : Stands start limit s pd live) (h : va < 2 ^ 32) (a : pa % 4096 ≡ 0) where
    map-present :
        absent (entry s.memory pd (directory_index va)) ≡ false
        → (t : PhysMem) × (map config pd va pa s ≡ ok t) × Maps pd va pa s t
    unfolding map with_table
    map-present p =
        let (t, e, m) = set_page-Maps s pd va pa live f.space h a p in
        (t, rw (map, with_table, p) e, m)

    map-absent :
        start + suc (length live) * 4096 ≤ limit
        → absent (entry s.memory pd (directory_index va)) ≡ true
        → (t : PhysMem) × (map config pd va pa s ≡ ok t) × Maps pd va pa s t
    unfolding map with_table
    map-absent room p =
        let (frame, u, e, g) =
          alloc_frame-Granted start limit f.free (record { live = live; pool = s }) f.frames
            f.limit_is room in
        let al : frame % 4096 ≡ 0 = g.frames.live_frames.0.3 in
        let b : ℕ = bit_or frame (entry_bits config va) in
        let points = target-bit_or config va frame al in
        let present = absent-bit_or config va frame al in
        let w : PhysMem = set_entry u pd (directory_index va) b in
        let z =
          grown-Space s.memory u.memory pd live f.space va frame b h p g.new al g.zeroes g.others
            points present in
        let q =
          grown-present s.memory u.memory pd live f.space va frame b h p g.new al g.zeroes g.others
            points present in
        let o : entry w.memory pd (directory_index va) ≡ b =
          grown-own s.memory u.memory pd live f.space va frame b h p g.new al g.zeroes g.others
            points present in
        let (t, r, m) = set_page-Maps w pd va pa (frame ∷ live) z h a q in
        let r2 : set_page config va pa (b, w) ≡ ok t = rw o at r in
        (
          t,
          rw (map, with_table, p, e) r2,
          record {
            translation = λ other l.
                m.translation other l
                ∙ ap (changed_page other va (some pa)) (
                    grown-translate s.memory u.memory pd live f.space va frame b h p g.new al
                      g.zeroes g.others points present other l);
            in_use = m.in_use;
          },
        )

    -- On a sound page directory and allocator, with a frame left for a page table that may be
    -- missing, map of a 32-bit address va to a frame pa returns; the page of va is then
    -- translated to the frame pa and every other page as before, and the page directory and its
    -- tables are still different frames.
    pub map-Maps :
        start + suc (length live) * 4096 ≤ limit
        → (t : PhysMem) × (map config pd va pa s ≡ ok t) × Maps pd va pa s t
    map-Maps room = elim (Bool-cases (absent (entry s.memory pd (directory_index va)))) [
      | inl p ↦ map-absent room p
      | inr p ↦ map-present p
    ]
