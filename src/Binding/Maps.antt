-- ===== src/Binding/Maps.antt =====
-- armv2.pyx, class Armv2: memory_map and loaded_libraries.
use armv.Common.{
  ℕ, zero, suc, ◌+◌, ◌*◌, ◌-◌, ◌^◌, Bool, true, false, List, [], ◌∷◌, ◌++◌, Option, none, some,
  ◌==◌, if◌then◌else◌,
}
use armv.Binding.Words.{Page, Cpu, max_26_bit, getword}

-- The start of the region that is open, and the regions before it.
abbrev pub Regions : Type 0
Regions = Option ℕ × List (ℕ × ℕ)

module _ {D : Type 0} where
  abbrev pub is_page : Option (Page D) → Bool
  is_page none = false
  is_page (some page) = true

  -- The loop at the page with the number `i`.
  unfoldable pub map_page : Cpu D → ℕ → Regions → Regions
  map_page cpu i (none, map) =
      if is_page (cpu.page_tables i) then (some (i * 2 ^ 12), map) else (none, map)
  map_page cpu i (some current, map) =
      if is_page (cpu.page_tables i)
      then (some current, map)
      else (none, map ++ ((current, i * 2 ^ 12) ∷ []))

  -- The loop over the first `count` pages.
  unfoldable pub map_pages : Cpu D → ℕ → Regions
  unfolding map_page
  map_pages cpu zero = (none, [])
  map_pages cpu (suc i) = map_page cpu i (map_pages cpu i)

abbrev pub close_region : Regions → List (ℕ × ℕ)
close_region (none, map) = map
close_region (some current, map) = map ++ ((current, max_26_bit) ∷ [])

module _ {D : Type 0} where
  unfoldable pub memory_map : Cpu D → List (ℕ × ℕ)
  unfolding map_pages
  memory_map cpu = close_region (map_pages cpu (2 ^ 14))

  unfoldable pub libraries_loop : ℕ → ℕ → Cpu D → List (ℕ × ℕ) × Cpu D
  unfolding getword
  libraries_loop zero pos cpu = ([], cpu)
  libraries_loop (suc rounds) pos cpu =
      let (start, after_start) = getword pos cpu in
      let (end, after_end) = getword (pos + 4) after_start in
      let (rest, last) = libraries_loop rounds (pos + 8) after_end in
      if start == end then ([], after_end) else ((start, end) ∷ rest, last)

  -- `boot_rom` is the place of the boot ROM, which the core keeps.
  unfoldable pub loaded_libraries : ℕ × ℕ → Cpu D → List (ℕ × ℕ) × Cpu D
  unfolding libraries_loop
  loaded_libraries boot_rom cpu =
      let (tapes, last) = libraries_loop 16 (0x3fff8 - 16 * 8) cpu in (boot_rom ∷ tapes, last)
