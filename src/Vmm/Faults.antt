-- ===== src/Vmm/Faults.antt =====
-- kernel/vmm.cc: the page fault and unmap.
use kernel_development_with.Prelude.{
  ℕ, suc, ◌+◌, ◌*◌, ◌^◌, ◌≤◌, ◌<◌, ◌≡◌, ◌≢◌, inr, refl, sym, ap, ◌∙◌, true, false, leb, le→leb,
  gt→leb, none, some, List, ◌∷◌, arith, length, Apart, eq→==,
}
use kernel_development_with.Prelude.Outcome.{ok}
use kernel_development_with.PhysMem.{PhysMem, Memory, framedown}
use kernel_development_with.PhysMem.Client.{alloc_frame-Granted}
use kernel_development_with.Vmm.{Config, entry, absent, target, translate, page_fault}
use kernel_development_with.Vmm.Mapping.{Apart-In, Space, changed_page}
use kernel_development_with.Vmm.Elsewhere.{elsewhere-translate, elsewhere-Space}
use kernel_development_with.Vmm.Calls.{Stands, map-Maps}

Space-cons : (m : Memory) (pd x : ℕ) (live : List ℕ) → Space m pd live → Space m pd (x ∷ live)
Space-cons m pd x live s = record {
  aligned = s.aligned;
  directory_in = inr s.directory_in;
  tables_in = λ i l q. inr (s.tables_in i l q);
  apart = s.apart;
  distinct = s.distinct;
}

-- What a page fault promises: the page has a frame that was not in use, and every other page is
-- translated as before.
pub record Provides (pd va : ℕ) (live : List ℕ) (s t : PhysMem) : Type 0 where
  pub frame : ℕ
  pub new : Apart frame live
  pub translation :
      (other : ℕ)
      → other < 2 ^ 32
      → translate t.memory pd other
        ≡ changed_page other va (some frame) (translate s.memory pd other)

-- On a sound page directory and allocator, with the page directory of the process in the register
-- and in the save area, a fault at a 32-bit address from 2 ^ 31 on returns: with two frames left,
-- the faulting page then has a frame that was not in use, and every other page is translated as
-- before.
pub page_fault-Provides :
    (config : Config) (start limit : ℕ) (s : PhysMem) (cr3 saved pd va : ℕ) (live : List ℕ)
    → cr3 ≡ pd
    → saved ≡ pd
    → Stands start limit s pd live
    → va < 2 ^ 32
    → 2 ^ 31 ≤ va
    → start + suc (suc (length live)) * 4096 ≤ limit
    → (t : PhysMem) × (page_fault config cr3 saved pd va s ≡ ok (some t))
      × Provides pd (framedown va) live s t
unfolding page_fault
page_fault-Provides config start limit s cr3 saved pd va live c1 c2 f h u room =
    let (frame, w, e, g) =
      alloc_frame-Granted start limit f.free (record { live = live; pool = s }) f.frames f.limit_is
        (omega (arith, room)) in
    let z = f.space in
    let pd_ne : pd ≢ frame = λ q. Apart-In frame pd live g.new z.directory_in (sym q) in
    let tables_ne : (i : ℕ)
        → i < 1024
        → absent (entry s.memory pd i) ≡ false
        → target (entry s.memory pd i) ≢ frame =
      λ i l q r.
        Apart-In frame (target (entry s.memory pd i)) live g.new (z.tables_in i l q) (sym r) in
    let k : Stands start limit w pd (frame ∷ live) = record {
      free = g.free;
      frames = g.frames;
      limit_is = g.limit ∙ f.limit_is;
      space =
          Space-cons w.memory pd frame live
            (elsewhere-Space s.memory w.memory pd live z frame g.others pd_ne tables_ne);
    } in
    let (t, r, m) =
      map-Maps config start limit w pd (framedown va) frame (frame ∷ live) k (omega (arith, h))
        g.frames.live_frames.0.3 room in
    let user : leb 0x80000000 (framedown va) ≡ true =
      le→leb 0x80000000 (framedown va) (omega (arith, u)) in
    (
      t,
      rw (page_fault, eq→== pd cr3 (sym c1), eq→== saved cr3 (c2 ∙ sym c1), user, e, r) refl,
      record {
        frame = frame;
        new = g.new;
        translation = λ other l.
            m.translation other l
            ∙ ap (changed_page other (framedown va) (some frame)) (
                elsewhere-translate s.memory w.memory pd live z frame g.others pd_ne tables_ne other
                  l);
      },
    )

-- A fault below the user addresses ends the process, and touches no memory.
pub page_fault-exits :
    (config : Config) (pd va : ℕ) (s : PhysMem)
    → va < 2 ^ 31
    → page_fault config pd pd pd va s ≡ ok none
unfolding page_fault
page_fault-exits config pd va s h =
    rw (page_fault, eq→== pd pd refl, gt→leb 0x80000000 (framedown va) (omega (arith, h))) refl
