-- ===== src/Tapes/Player.antt =====
-- tapes.py, class ProgramTape: the cursor that get_byte moves over the blocks.
-- Times are numbers of milliseconds, which are only stored here; their type is a parameter.
pub mod Reading
pub mod Timing
use armv.Common.{
  ℕ, zero, suc, ◌+◌, List, [], ◌∷◌, Option, none, some, ltb, leb, if◌then◌else◌, length, get_elem?,
}
use armv.Common.Bytes.{Bytes}

module _ (Time : Type 0) where
  pub record Tape : Type 0 where
    pub blocks : List Bytes
    pub start_time : List Time
    pub preamble_len : Time
    -- The position 0.
    pub origin : Time

  pub record Cursor : Type 0 where
    pub position : Time
    pub current_block : ℕ
    pub current_bit : ℕ
    pub block_pos : ℕ
    pub block_start : Time

module _ {Time : Type 0} (tape : Tape Time) where
  unfoldable pub rewind : Cursor Time → Cursor Time
  rewind cursor = record {
    position = tape.origin;
    current_block = 0;
    current_bit = 0;
    block_pos = 0;
    block_start = tape.preamble_len;
  }

  -- self.start_time[self.current_block], or the position behind the last block
  abbrev pub start_or : Option Time → Time → Time
  start_or none position = position
  start_or (some t) position = t

  unfoldable pub advance_block : Cursor Time → Cursor Time
  advance_block cursor =
      let next = suc cursor.current_block in
      record cursor {
        current_block = next;
        block_pos = 0;
        current_bit = 0;
        block_start = start_or (get_elem? tape.start_time next) cursor.position;
      }

  abbrev pub taken : Bytes → Cursor Time → Cursor Time
  taken block cursor =
      let moved = record cursor { block_pos = suc cursor.block_pos } in
      let advanced = advance_block moved in
      if leb (length block) (suc cursor.block_pos) then advanced else moved

  abbrev pub from_block : Bytes → Option ℕ → Cursor Time → Option ℕ × Cursor Time
  from_block block none cursor = (none, cursor)
  from_block block (some c) cursor = (some c, taken block cursor)

  abbrev pub at_block : Option Bytes → Cursor Time → Option ℕ × Cursor Time
  at_block none cursor = (none, cursor)
  at_block (some block) cursor = from_block block (get_elem? block cursor.block_pos) cursor

  -- An index out of range is caught, and no byte is given.
  unfoldable pub get_byte : Cursor Time → Option ℕ × Cursor Time
  unfolding advance_block
  get_byte cursor = at_block (get_elem? tape.blocks cursor.current_block) cursor

  -- What `n` calls in a row give.
  unfoldable pub get_bytes : ℕ → Cursor Time → List (Option ℕ)
  unfolding get_byte
  get_bytes zero cursor = []
  get_bytes (suc n) cursor = let (c, later) = get_byte cursor in c ∷ get_bytes n later
