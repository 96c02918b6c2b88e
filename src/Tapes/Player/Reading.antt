-- ===== src/Tapes/Player/Reading.antt =====
-- tapes.py: the bytes that get_byte gives from a rewound tape.
use armv.Common.{
  ℕ, zero, suc, ◌<◌, ◌≤◌, ◌≡◌, ◌⊎◌, inl, inr, refl, sym, ap, ◌∙◌, List, [], ◌∷◌, ◌++◌, Option, none,
  some, false, leb, Bool-cases, arith, All, length, drop, get_elem?,
}
use armv.Common.Bytes.{Bytes}
use armv.Tapes.Player.{Tape, Cursor, rewind, advance_block, get_byte, get_bytes}

-- The bytes of the blocks in order.
abbrev pub content : List Bytes → Bytes
content [] = []
content (b ∷ bs) = b ++ content bs

-- What `n` reads of a text give: its bytes, and none behind its end.
abbrev pub reads : ℕ → Bytes → List (Option ℕ)
reads zero bs = []
reads (suc n) [] = none ∷ reads n []
reads (suc n) (b ∷ bs) = some b ∷ reads n bs

abbrev pub IsFilled : Bytes → Type 0
IsFilled block = 0 < length block

-- What is left from place `p` of block `k` on.
abbrev left : List Bytes → ℕ → ℕ → Bytes
left [] k p = []
left (b ∷ bs) zero p = drop p b ++ content bs
left (b ∷ bs) (suc k) p = left bs k p

left_start : (bs : List Bytes) → left bs 0 0 ≡ content bs
left_start [] = refl
left_start (b ∷ bs) = refl

drop-at :
    (b : Bytes) (p : ℕ)
    → p < length b
    → (c : ℕ) × (get_elem? b p ≡ some c) × (drop p b ≡ c ∷ drop (suc p) b)
drop-at [] p h = absurd (omega arith)
drop-at (c ∷ b) zero h = (c, refl, refl)
drop-at (c ∷ b) (suc p) h = drop-at b p (omega arith)

drop_end : (b : Bytes) (p : ℕ) → length b ≤ p → drop p b ≡ []
drop_end [] zero h = refl
drop_end [] (suc p) h = refl
drop_end (c ∷ b) zero h = absurd (omega arith)
drop_end (c ∷ b) (suc p) h = drop_end b p (omega arith)

abbrev IsInRange : List Bytes → ℕ → ℕ → Type 0
IsInRange blocks k p = (x : Bytes) → get_elem? blocks k ≡ some x → p < length x

-- A place is behind the last block, or a byte stands there and what is left goes on at the next
-- place, or at the next block.
abbrev Sees : List Bytes → ℕ → ℕ → Type 0
Sees blocks k p =
    ((get_elem? blocks k ≡ none) × (left blocks k p ≡ []))
    ⊎ ((block : Bytes) × (c : ℕ) × (get_elem? blocks k ≡ some block)
        × (get_elem? block p ≡ some c)
        × (length block ≤ suc p → left blocks k p ≡ c ∷ left blocks (suc k) 0)
        × (suc p < length block → left blocks k p ≡ c ∷ left blocks k (suc p)))

sees : (blocks : List Bytes) (k p : ℕ) → IsInRange blocks k p → Sees blocks k p
sees [] k p h = inl (refl, refl)
sees (b ∷ bs) (suc k) p h = sees bs k p h
sees (b ∷ bs) zero p h =
    let (c, here, cut) = drop-at b p (h b refl) in
    inr (b, c, refl, here, λ end. rw (cut, drop_end b (suc p) end, left_start bs), λ more. rw cut)

abbrev sized : Option Bytes → ℕ
sized none = 0
sized (some b) = length b

same_size : (b x : Bytes) → some b ≡ some x → length b ≡ length x
same_size b x e = ap sized e

All-at :
    (blocks : List Bytes) (k : ℕ) (x : Bytes)
    → All IsFilled blocks
    → get_elem? blocks k ≡ some x
    → IsFilled x
All-at [] k x h e = cc
All-at (b ∷ bs) zero x h e = omega (arith, same_size b x e, h.0)
All-at (b ∷ bs) (suc k) x h e = All-at bs k x h.1 e

module _ {Time : Type 0} (tape : Tape Time) where
  get_bytes-left :
      (n : ℕ) (cursor : Cursor Time)
      → All IsFilled tape.blocks
      → IsInRange tape.blocks cursor.current_block cursor.block_pos
      → get_bytes tape n cursor ≡ reads n (left tape.blocks cursor.current_block cursor.block_pos)
  unfolding get_bytes get_byte advance_block
  get_bytes-left zero cursor filled h = refl
  get_bytes-left (suc n) cursor filled h =
      elim (sees tape.blocks cursor.current_block cursor.block_pos h) [
        | inl (gone, empty) ↦
            rw (gone, empty)
              (ap (λ r. none ∷ r) (get_bytes-left n cursor filled h ∙ ap (reads n) empty))
        | inr (block, c, at, here, end, more) ↦
            elim (Bool-cases (leb (length block) (suc cursor.block_pos))) [
              | inl e ↦
                  rw (at, here, e, end (ground arith))
                    (ap (λ r. some c ∷ r)
                      (get_bytes-left n (advance_block tape (moved cursor)) filled
                        (λ x found. All-at tape.blocks (suc cursor.current_block) x filled found)))
              | inr e ↦
                  rw (at, here, e, more (ground arith))
                    (ap (λ r. some c ∷ r)
                      (get_bytes-left n (moved cursor) filled
                        (λ x found. stays block x (sym at ∙ found) e)))
            ]
      ]
    where
      moved : Cursor Time → Cursor Time
      moved cursor = record cursor { block_pos = suc cursor.block_pos }

      stays :
          (block x : Bytes)
          → some block ≡ some x
          → leb (length block) (suc cursor.block_pos) ≡ false
          → suc cursor.block_pos < length x
      stays block x e short = ground (arith, same_size block x e)

  -- From a rewound tape whose blocks all hold bytes, however far it was played, `n` calls of get_byte
  -- give the first `n` bytes of its blocks in order, and none behind the last.
  pub get_bytes-rewind :
      (n : ℕ) (cursor : Cursor Time)
      → All IsFilled tape.blocks
      → get_bytes tape n (rewind tape cursor) ≡ reads n (content tape.blocks)
  unfolding rewind
  get_bytes-rewind n cursor filled =
      get_bytes-left n (rewind tape cursor) filled (λ x found. All-at tape.blocks 0 x filled found)
      ∙ ap (reads n) (left_start tape.blocks)
