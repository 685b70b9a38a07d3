-- ===== src/Vmm/Unmapping.antt =====
-- kernel/vmm.cc: unmap.
use kernel_development_with.Prelude.{
  ℕ, ◌+◌, ◌/◌, ◌%◌, ◌^◌, ◌<◌, ◌≡◌, ◌≢◌, inl, inr, refl, sym, ◌∙◌, true, false, none, some, List,
  arith, ℕ_discrete, eq→==, ne→==, Bool-cases,
}
use kernel_development_with.Queue.{update}
use kernel_development_with.Prelude.Outcome.{ok}
use kernel_development_with.PhysMem.{PhysMem, Memory}
use kernel_development_with.PhysMem.Frames.{dealloc_frame_eq}
use kernel_development_with.Vmm.{
  Config, entry, set_entry, absent, target, directory_index, table_index, translate, unmap,
  unmap_page, is_special,
}
use kernel_development_with.Vmm.Entries.{target-aligned}
use kernel_development_with.Vmm.Mapping.{
  Space, update_ne, changed_page, directory_of_page, table_of_page, translate-written,
  written-Space, written-directory,
}
use kernel_development_with.Vmm.Elsewhere.{elsewhere-translate}

translate-page :
    (m : Memory) (pd a b : ℕ) → a / 4096 ≡ b / 4096 → translate m pd a ≡ translate m pd b
unfolding translate
translate-page m pd a b e = rw (translate, directory_of_page a b e, table_of_page a b e) refl

-- What unmap promises: the page of `va` is not translated, and every other page as before.
abbrev pub Unmaps : ℕ → ℕ → PhysMem → PhysMem → Type 0
Unmaps pd va s t =
    (other : ℕ)
    → other < 2 ^ 32
    → translate t.memory pd other ≡ changed_page other va none (translate s.memory pd other)

-- The frame of `va`, if it has one, is neither the page directory nor a page table.
abbrev pub IsPlain : ℕ → ℕ → PhysMem → Type 0
IsPlain pd va s =
    (pa : ℕ)
    → translate s.memory pd va ≡ some pa
    → (pa ≢ pd)
      × ((i : ℕ)
          → i < 1024
          → absent (entry s.memory pd i) ≡ false
          → target (entry s.memory pd i) ≢ pa)

unchanged-Unmaps : (pd va : ℕ) (s : PhysMem) → translate s.memory pd va ≡ none → Unmaps pd va s s
unfolding changed_page
unchanged-Unmaps pd va s e other l = elim (ℕ_discrete (other / 4096) (va / 4096)) [
  | yes q ↦
      rw (changed_page, eq→== (other / 4096) (va / 4096) q)
        (translate-page s.memory pd other va q ∙ e)
  | no n ↦ rw (changed_page, ne→== (other / 4096) (va / 4096) n) refl
]

module _ (config : Config) (s : PhysMem) (pd va : ℕ) (live : List ℕ) (f : Space s.memory pd live)
    (h : va < 2 ^ 32) (user : is_special config va ≡ false) where
  unmap-absent :
      absent (entry s.memory pd (directory_index va)) ≡ true
      → (t : PhysMem) × (unmap config pd va s ≡ ok t) × Unmaps pd va s t
  unfolding unmap translate
  unmap-absent p =
      let e : translate s.memory pd va ≡ none = rw (translate, p) refl in
      (s, rw (unmap, user, p) refl, unchanged-Unmaps pd va s e)

  module _ (p : absent (entry s.memory pd (directory_index va)) ≡ false) where
    abbrev pte : ℕ
    pte = entry s.memory (target (entry s.memory pd (directory_index va))) (table_index va)

    unmap_empty :
        absent pte ≡ true → (t : PhysMem) × (unmap config pd va s ≡ ok t) × Unmaps pd va s t
    unfolding unmap unmap_page translate
    unmap_empty q =
        let e : translate s.memory pd va ≡ none = rw (translate, p, q) refl in
        (s, rw (unmap, user, p, unmap_page, q) refl, unchanged-Unmaps pd va s e)

    unmap_frame :
        absent pte ≡ false
        → IsPlain pd va s
        → (t : PhysMem) × (unmap config pd va s ≡ ok t) × Unmaps pd va s t
    unfolding unmap unmap_page translate
    unmap_frame q plain =
        let g : translate s.memory pd va ≡ some (target pte) = rw (translate, p, q) refl in
        let (pd_ne, tables_ne) = plain (target pte) g in
        let u : PhysMem =
          set_entry s (target (entry s.memory pd (directory_index va))) (table_index va) 0 in
        let t : PhysMem = record u {
          memory = update u.memory (target pte) u.first_free;
          first_free = target pte;
        } in
        let others : (x j : ℕ)
            → x ≢ target pte
            → x % 4096 ≡ 0
            → j < 4096
            → t.memory (x + j) ≡ u.memory (x + j) =
          λ x j n a l.
            update_ne u.memory (target pte) u.first_free (x + j)
              (omega (arith, n, a, l, target-aligned pte)) in
        let same : (i : ℕ) → i < 1024 → entry u.memory pd i ≡ entry s.memory pd i =
          written-directory s.memory pd live f va 0 h p in
        (
          t,
          rw (unmap, user, p, unmap_page, q) (dealloc_frame_eq u (target pte) (target-aligned pte)),
          λ other l.
              elsewhere-translate u.memory t.memory pd live
                (written-Space s.memory pd live f va 0 h p) (target pte) others (λ r. pd_ne (sym r))
                (λ i k r. rw (same i k) (tables_ne i k (rw (same i k) at r))) other l
              ∙ translate-written s.memory pd live f va 0 h p other l,
        )

  -- On a sound page directory, unmap of a 32-bit address outside the shared ones returns, whether
  -- or not its page is mapped; after it the page is not translated, and every other page as
  -- before, provided that the page's frame is neither the page directory nor one of its tables.
  pub unmap-Unmaps :
      IsPlain pd va s → (t : PhysMem) × (unmap config pd va s ≡ ok t) × Unmaps pd va s t
  unmap-Unmaps plain = elim (Bool-cases (absent (entry s.memory pd (directory_index va)))) [
    | inl p ↦ unmap-absent p
    | inr p ↦ elim (Bool-cases (absent (pte p))) [
      | inl q ↦ unmap_empty p q
      | inr q ↦ unmap_frame p q plain
    ]
  ]
