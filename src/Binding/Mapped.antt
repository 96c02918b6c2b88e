-- ===== src/Binding/Mapped.antt =====
-- armv2.pyx, Armv2.memory_map: the regions are the pages that are there.
use armv.Common.{
  ℕ, zero, suc, ◌*◌, ◌/◌, ◌^◌, ◌≤◌, ◌≡◌, refl, ap, ◌∙◌, arith, Bool, true, false, ◌&&◌, ◌||◌, List,
  [], ◌∷◌, ◌++◌, Option, none, some, ◌==◌, leb, ltb, Bool-cases, inl, inr, ==_iff, some_eq,
}
use armv.Binding.Words.{Cpu, max_26_bit}
use armv.Binding.Maps.{Regions, is_page, map_page, map_pages, close_region, memory_map}

-- The address lies in one of the regions.
unfoldable pub covers : List (ℕ × ℕ) → ℕ → Bool
covers [] a = false
covers ((start, end) ∷ map) a = (leb start a && ltb a end) || covers map a

covers-snoc :
    (map : List (ℕ × ℕ)) (start end a : ℕ)
    → covers (map ++ ((start, end) ∷ [])) a ≡ (covers map a || (leb start a && ltb a end))
unfolding covers
covers-snoc [] start end a = ground arith
covers-snoc ((s, e) ∷ map) start end a = ground (arith, covers-snoc map start end a)

abbrev open_covers : ℕ → Option ℕ → ℕ → Bool
open_covers end none a = false
open_covers end (some current) a = leb current a && ltb a end

module _ {D : Type 0} (cpu : Cpu D) where
  abbrev there : ℕ → Bool
  there a = is_page (cpu.page_tables (a / 2 ^ 12))

  -- In front of the page `i` the loop has covered the addresses of the pages that are there.
  record IsMapped (i : ℕ) (r : Regions) : Type 0 where
    covered :
        (a : ℕ) → (covers r.1 a || open_covers (i * 2 ^ 12) r.0 a) ≡ (ltb a (i * 2 ^ 12) && there a)
    begun : (current : ℕ) → r.0 ≡ some current → current ≤ i * 2 ^ 12

  -- What holds at an address of the page `i`, and at any other.
  here : (i a : ℕ) → (a / 2 ^ 12 == i) ≡ true → there a ≡ is_page (cpu.page_tables i)
  here i a e = ap (λ p. is_page (cpu.page_tables p)) ((==_iff (a / 2 ^ 12) i).0 e)

  map_page-IsMapped : (i : ℕ) (r : Regions) → IsMapped i r → IsMapped (suc i) (map_page cpu i r)
  unfolding map_page
  map_page-IsMapped i (none, map) h = elim (Bool-cases (is_page (cpu.page_tables i))) [
    | inl e ↦ rw e (record {
      covered = λ a. elim (Bool-cases (a / 2 ^ 12 == i)) [
        | inl q ↦ ground (arith, h.covered a, here i a q, e, (==_iff (a / 2 ^ 12) i).0 q)
        | inr q ↦ ground (arith, h.covered a)
      ];
      begun = λ current same. omega (arith, some_eq same);
    })
    | inr e ↦ rw e (record {
      covered = λ a. elim (Bool-cases (a / 2 ^ 12 == i)) [
        | inl q ↦ ground (arith, h.covered a, here i a q, e, (==_iff (a / 2 ^ 12) i).0 q)
        | inr q ↦ ground (arith, h.covered a)
      ];
      begun = λ current same. cc;
    })
  ]
  map_page-IsMapped i (some c, map) h = elim (Bool-cases (is_page (cpu.page_tables i))) [
    | inl e ↦ rw e (record {
      covered = λ a. elim (Bool-cases (a / 2 ^ 12 == i)) [
        | inl q ↦
            ground (arith, h.covered a, h.begun c refl, here i a q, e, (==_iff (a / 2 ^ 12) i).0 q)
        | inr q ↦ ground (arith, h.covered a, h.begun c refl)
      ];
      begun = λ current same. omega (arith, h.begun current same);
    })
    | inr e ↦ rw e (record {
      covered = λ a. elim (Bool-cases (a / 2 ^ 12 == i)) [
        | inl q ↦ ground (
          arith,
          covers-snoc map c (i * 2 ^ 12) a,
          h.covered a,
          here i a q,
          e,
          (==_iff (a / 2 ^ 12) i).0 q,
        )
        | inr q ↦ ground (arith, covers-snoc map c (i * 2 ^ 12) a, h.covered a)
      ];
      begun = λ current same. cc;
    })
  ]

  map_pages-IsMapped : (count : ℕ) → IsMapped count (map_pages cpu count)
  unfolding map_pages covers
  map_pages-IsMapped zero = record { covered = λ a. ground arith; begun = λ current same. cc }
  map_pages-IsMapped (suc i) = map_page-IsMapped i (map_pages cpu i) (map_pages-IsMapped i)

  close_region-covers :
      (r : Regions) (a : ℕ)
      → covers (close_region r) a ≡ (covers r.1 a || open_covers max_26_bit r.0 a)
  close_region-covers (none, map) a = ground arith
  close_region-covers (some current, map) a = covers-snoc map current max_26_bit a

  -- The regions hold exactly the addresses below 2 ^ 26 whose page is there.
  pub memory_map-covers :
      (a : ℕ)
      → covers (memory_map cpu) a ≡ (ltb a max_26_bit && is_page (cpu.page_tables (a / 2 ^ 12)))
  unfolding memory_map
  memory_map-covers a =
      close_region-covers (map_pages cpu (2 ^ 14)) a ∙ (map_pages-IsMapped (2 ^ 14)).covered a
