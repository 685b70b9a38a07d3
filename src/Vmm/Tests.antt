-- ===== src/Vmm/Tests.antt =====
-- kernel/vmm.cc: examples.
use kernel_development_with.Prelude.{
  ℕ, ◌<◌, ◌≡◌, inl, inr, refl, sym, ◌∙◌, true, false, if◌then◌else◌, ◌==◌, some, [], ◌∷◌, arith,
}
use kernel_development_with.Prelude.Outcome.{ok}
use kernel_development_with.PhysMem.{PhysMem, Memory, framedown}
use kernel_development_with.Vmm.{Config, entry, absent, translate, map, unmap, page_fault}
use kernel_development_with.Vmm.Mapping.{Space, bool_clash}
use kernel_development_with.Vmm.Calls.{Stands, Maps, map-Maps}
use kernel_development_with.Vmm.Faults.{Provides, page_fault-Provides}
use kernel_development_with.Vmm.Unmapping.{Unmaps, IsPlain, unmap-Unmaps}

abbrev apics : Config
apics = record { io_apic = 0xfec00000; local_apic = 0xfee00000 }

-- An empty page directory in the first frame.
abbrev fresh : PhysMem
fresh = record { memory = λ q. 0; first_free = 0; avail = 8192; limit = 20480 }

fresh-Stands : Stands 4096 20480 fresh 4096 (4096 ∷ [])
fresh-Stands = record {
  free = [];
  frames = record {
    chain = refl;
    free_frames = tt;
    live_frames = ((omega arith, omega arith, omega arith, refl), tt);
    free_distinct = tt;
    live_distinct = (tt, tt);
    disjoint = tt;
    total = refl;
    bound = omega arith;
    limit_aligned = refl;
    start_aligned = refl;
    start_positive = omega arith;
    limit_small = omega arith;
  };
  limit_is = refl;
  space = record {
    aligned = refl;
    directory_in = inl refl;
    tables_in = λ i l q. elim (bool_clash true refl q) [ ];
    apart = λ i l q. elim (bool_clash true refl q) [ ];
    distinct = λ i j l k n q r. elim (bool_clash true refl q) [ ];
  };
}

map-Maps_example :
    (t : PhysMem) × (map apics 4096 0x80000000 16384 fresh ≡ ok t)
    × Maps 4096 0x80000000 16384 fresh t
map-Maps_example =
    map-Maps apics 4096 20480 fresh 4096 0x80000000 16384 (4096 ∷ []) fresh-Stands (omega arith)
      refl (omega arith)

page_fault-Provides_example :
    (t : PhysMem) × (page_fault apics 4096 4096 4096 0x80000123 fresh ≡ ok (some t))
    × Provides 4096 (framedown 0x80000123) (4096 ∷ []) fresh t
page_fault-Provides_example =
    page_fault-Provides apics 4096 20480 fresh 4096 4096 4096 0x80000123 (4096 ∷ []) refl refl
      fresh-Stands (omega arith) (omega arith) (omega arith)

-- One page, in the third frame, by a table in the second.
abbrev mapped : Memory
mapped q = if q == 6144 then 8199 else if q == 8192 then 12295 else 0

abbrev one_page : PhysMem
one_page = record { memory = mapped; first_free = 0; avail = 16384; limit = 20480 }

translate_test : translate mapped 4096 0x80000abc ≡ some 12288
unfolding translate
translate_test = refl

only_entry : (i : ℕ) → absent (entry mapped 4096 i) ≡ false → i < 1024 → i ≡ 512
only_entry i q l = ground arith

one_page-Space : Space mapped 4096 (12288 ∷ 8192 ∷ 4096 ∷ [])
one_page-Space = record {
  aligned = refl;
  directory_in = inr (inr (inl refl));
  tables_in = λ i l q. let e = only_entry i q l in rw e (inr (inl refl));
  apart = λ i l q. let e = only_entry i q l in rw e (omega arith);
  distinct = λ i j l k n q r. elim (n (only_entry i q l ∙ sym (only_entry j r k))) [ ];
}

one_page-IsPlain : IsPlain 4096 0x80000000 one_page
unfolding translate
one_page-IsPlain pa e =
    let p : 12288 ≡ pa = cc in
    (omega (arith, p), λ i l q. let d = only_entry i q l in rw d (omega (arith, p)))

unmap-Unmaps_example :
    (t : PhysMem) × (unmap apics 4096 0x80000000 one_page ≡ ok t)
    × Unmaps 4096 0x80000000 one_page t
unmap-Unmaps_example =
    unmap-Unmaps apics one_page 4096 0x80000000 (12288 ∷ 8192 ∷ 4096 ∷ []) one_page-Space
      (omega arith) refl one_page-IsPlain
