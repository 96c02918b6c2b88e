-- ===== src/Binding/Libraries.antt =====
-- armv2.pyx, Armv2.loaded_libraries: the table of tapes in plain memory.
use armv.Common.{
  ℕ, zero, suc, ◌+◌, ◌*◌, ◌≤◌, ◌≡◌, ◌≢◌, refl, arith, List, [], ◌∷◌, length, ◌==◌, Bool-cases, inl,
  inr, ==_iff,
}
use armv.Binding.Words.{Cpu}
use armv.Binding.Maps.{libraries_loop, loaded_libraries}
use armv.Binding.Ram.{stored, getword-ram}
use armv.Binding.Slices.{AllRam}

module _ {D : Type 0} (cpu : Cpu D) where
  -- The pairs of words from `pos` on, up to the first pair of equal ones or to the end of the table.
  abbrev pub Lists : ℕ → ℕ → List (ℕ × ℕ) → Type 0
  Lists zero pos tapes = tapes ≡ []
  Lists (suc rounds) pos [] = stored cpu pos ≡ stored cpu (pos + 4)
  Lists (suc rounds) pos ((start, end) ∷ tapes) =
      (start ≡ stored cpu pos)
      × (end ≡ stored cpu (pos + 4))
      × (start ≢ end)
      × Lists rounds (pos + 8) tapes

  Lists-length :
      (rounds pos : ℕ) (tapes : List (ℕ × ℕ)) → Lists rounds pos tapes → length tapes ≤ rounds
  Lists-length zero pos [] h = omega arith
  Lists-length zero pos (t ∷ tapes) h = cc
  Lists-length (suc rounds) pos [] h = omega arith
  Lists-length (suc rounds) pos (t ∷ tapes) h =
      omega (arith, Lists-length rounds (pos + 8) tapes h.3)

  libraries_loop-Lists :
      (rounds pos : ℕ)
      → AllRam cpu pos (rounds * 8)
      → (tapes : List (ℕ × ℕ)) × (libraries_loop rounds pos cpu ≡ (tapes, cpu))
        × Lists rounds pos tapes
  unfolding libraries_loop
  libraries_loop-Lists zero pos ram = ([], refl, refl)
  libraries_loop-Lists (suc rounds) pos ram =
      let (rest, e, lists) =
        libraries_loop-Lists rounds (pos + 8) (λ a l m. ram a (omega arith) (omega arith)) in
      let start = getword-ram pos cpu (ram pos (omega arith) (omega arith)) in
      let end = getword-ram (pos + 4) cpu (ram (pos + 4) (omega arith) (omega arith)) in
      elim (Bool-cases (stored cpu pos == stored cpu (pos + 4))) [
        | inl q ↦ ([], rw (start, end, e, q) refl, (==_iff _ _).0 q)
        | inr q ↦ (
          (stored cpu pos, stored cpu (pos + 4)) ∷ rest,
          rw (start, end, e, q) refl,
          (refl, refl, λ same. cc ((==_iff (stored cpu pos) (stored cpu (pos + 4))).1 same), lists),
        )
      ]

  -- If the table of tapes is plain memory, the libraries are the boot ROM and the pairs of the table
  -- in front of the first whose words are equal, at most sixteen, and the processor is unchanged.
  pub loaded_libraries-Lists :
      (boot_rom : ℕ × ℕ)
      → AllRam cpu 0x3ff78 128
      → (tapes : List (ℕ × ℕ)) × (loaded_libraries boot_rom cpu ≡ (boot_rom ∷ tapes, cpu))
        × Lists 16 0x3ff78 tapes
        × (length tapes ≤ 16)
  unfolding loaded_libraries
  loaded_libraries-Lists boot_rom ram =
      let (tapes, e, lists) = libraries_loop-Lists 16 0x3ff78 ram in
      (tapes, rw e refl, lists, Lists-length 16 0x3ff78 tapes lists)
