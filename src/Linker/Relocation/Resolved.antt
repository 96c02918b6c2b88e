-- ===== src/Linker/Relocation/Resolved.antt =====
-- create.py: a section whose entries can all be resolved is linked.
use armv.Common.{
  ℕ, suc, ◌+◌, ◌*◌, ◌/◌, ◌≡◌, inl, inr, refl, ap, ◌∙◌, false, List, [], ◌∷◌, ok, arith, All,
  if◌then◌else◌, length, slice, get_or,
}
use armv.Common.Bytes.{Bytes}
use armv.Linker.Relocation.{Segment, Symbol, relocation_loop, process_relocation}
use armv.Linker.Relocation.Fixes.{
  Fix, new_word, rel_bytes, AreApart, AllApart, IsOutside, IsResolved, patched, relocate-patched,
}
use armv.Linker.Relocation.Words.{
  stored_word, unpack_le-le32, length-put_word, get_or-put_word, stored_word-put_word_self,
  stored_word-put_word, IsApart,
}

module _ (segments : List Segment) (symbols os_symbols : List Symbol) where
  -- The later entries find their words as they were.
  new_word-patched :
      (bytes : Bytes) (f g : Fix)
      → IsResolved segments symbols os_symbols bytes f
      → IsApart f.offset g.offset
      → new_word (patched bytes f) g ≡ new_word bytes g
  new_word-patched bytes f g h apart =
      ap (λ (w : ℕ). if g.adds then g.symbol_value + w else g.symbol_value)
        (stored_word-put_word f.offset g.offset (new_word bytes f) bytes h.inside apart)

  still-IsResolved :
      (bytes : Bytes) (f g : Fix)
      → IsResolved segments symbols os_symbols bytes f
      → IsApart f.offset g.offset
      → IsResolved segments symbols os_symbols bytes g
      → IsResolved segments symbols os_symbols (patched bytes f) g
  still-IsResolved bytes f g h apart k = record {
    fits = k.fits;
    placed = k.placed;
    inside = omega (arith, k.inside, length-put_word f.offset (new_word bytes f) bytes h.inside);
    kind = k.kind;
    holds = omega (arith, k.holds, new_word-patched bytes f g h apart);
  }

  all_still-IsResolved :
      (bytes : Bytes) (f : Fix) (fixes : List Fix)
      → IsResolved segments symbols os_symbols bytes f
      → AreApart f fixes
      → All (IsResolved segments symbols os_symbols bytes) fixes
      → All (IsResolved segments symbols os_symbols (patched bytes f)) fixes
  all_still-IsResolved bytes f [] h apart k = tt
  all_still-IsResolved bytes f (g ∷ fixes) h apart k =
      (still-IsResolved bytes f g h apart.0 k.0, all_still-IsResolved bytes f fixes h apart.1 k.1)

  -- Every patched word, and every byte outside them.
  pub record IsLinked (bytes : Bytes) (fixes : List Fix) (out : Bytes) : Type 0 where
    pub size : length out ≡ length bytes
    pub words : All (λ (f : Fix). stored_word out f.offset ≡ new_word bytes f) fixes
    pub others : (x : ℕ) → All (IsOutside x) fixes → get_or out x 0 ≡ get_or bytes x 0
    -- A word that no entry overlaps.
    apart :
        (o : ℕ)
        → All (λ (f : Fix). IsApart f.offset o) fixes
        → stored_word out o ≡ stored_word bytes o

  words_later :
      (bytes out : Bytes) (f : Fix) (fixes : List Fix)
      → IsResolved segments symbols os_symbols bytes f
      → AreApart f fixes
      → All (λ (g : Fix). stored_word out g.offset ≡ new_word (patched bytes f) g) fixes
      → All (λ (g : Fix). stored_word out g.offset ≡ new_word bytes g) fixes
  words_later bytes out f [] h apart w = tt
  words_later bytes out f (g ∷ fixes) h apart w =
      (w.0 ∙ new_word-patched bytes f g h apart.0, words_later bytes out f fixes h apart.1 w.1)

  turned :
      (o : ℕ) (fixes : List Fix)
      → All (λ (g : Fix). IsApart o g.offset) fixes
      → All (λ (g : Fix). IsApart g.offset o) fixes
  turned o [] h = tt
  turned o (g ∷ fixes) h = (swapped h.0, turned o fixes h.1)
    where
      swapped : IsApart o g.offset → IsApart g.offset o
      swapped (inl before) = inr before
      swapped (inr after) = inl after

  IsLinked-cons :
      (bytes out : Bytes) (f : Fix) (fixes : List Fix)
      → IsResolved segments symbols os_symbols bytes f
      → AreApart f fixes
      → IsLinked (patched bytes f) fixes out
      → IsLinked bytes (f ∷ fixes) out
  IsLinked-cons bytes out f fixes h apart l = record {
    size = l.size ∙ length-put_word f.offset (new_word bytes f) bytes h.inside;
    words = (
      l.apart f.offset (turned f.offset fixes apart)
          ∙ stored_word-put_word_self f.offset (new_word bytes f) bytes h.inside h.holds,
      words_later bytes out f fixes h apart l.words,
    );
    others = λ x outside.
        l.others x outside.1
        ∙ get_or-put_word f.offset (new_word bytes f) x bytes h.inside outside.0;
    apart = λ o aparts.
        l.apart o aparts.1
        ∙ stored_word-put_word f.offset o (new_word bytes f) bytes h.inside aparts.0;
  }

  entry_step :
      (rounds : ℕ) (bytes : Bytes) (f : Fix) (fixes : List Fix)
      → IsResolved segments symbols os_symbols bytes f
      → relocation_loop segments symbols os_symbols
          (suc rounds)
          (rel_bytes (f ∷ fixes))
          (bytes, false)
        ≡ relocation_loop segments symbols os_symbols rounds
            (rel_bytes fixes)
            (patched bytes f, false)
  unfolding relocation_loop
  entry_step rounds bytes f fixes h =
      rw
        (
          unpack_le-le32 f.addr h.fits.0,
          unpack_le-le32 f.info h.fits.1,
          relocate-patched segments symbols os_symbols bytes f h,
        )
        refl

  loop-IsLinked :
      (bytes : Bytes) (fixes : List Fix)
      → All (IsResolved segments symbols os_symbols bytes) fixes
      → AllApart fixes
      → (out : Bytes) × (relocation_loop segments symbols os_symbols
            (length fixes)
            (rel_bytes fixes)
            (bytes, false)
          ≡ ok (out, false))
        × IsLinked bytes fixes out
  loop-IsLinked bytes [] h apart = (
    bytes,
    unfold relocation_loop in refl,
    record { size = refl; words = tt; others = λ x outside. refl; apart = λ o aparts. refl },
  )
  loop-IsLinked bytes (f ∷ fixes) h apart =
      let (out, e, l) =
        loop-IsLinked (patched bytes f) fixes (all_still-IsResolved bytes f fixes h.0 apart.0 h.1)
          apart.1 in
      (
        out,
        entry_step (length fixes) bytes f fixes h.0 ∙ e,
        IsLinked-cons bytes out f fixes h.0 apart.0 l,
      )

  -- A file whose section holds entries that can be resolved, at words that do not overlap, is linked
  -- without an exception: at each entry's offset stands its symbol's value, added to the word that
  -- was there if the entry is absolute, and every other byte of the file is as before.
  pub process_relocation-IsLinked :
      (sh_offset : ℕ) (bytes : Bytes) (fixes : List Fix)
      → slice sh_offset (sh_offset + 8 * length fixes) bytes ≡ rel_bytes fixes
      → All (IsResolved segments symbols os_symbols bytes) fixes
      → AllApart fixes
      → (out : Bytes) × (process_relocation segments symbols os_symbols sh_offset
            (8 * length fixes)
            bytes
          ≡ ok out)
        × IsLinked bytes fixes out
  unfolding process_relocation
  process_relocation-IsLinked sh_offset bytes fixes section h apart =
      let (out, e, l) = loop-IsLinked bytes fixes h apart in
      let rounds : (8 * length fixes + 7) / 8 ≡ length fixes = omega arith in
      (out, rw (section, rounds, e) refl, l)
