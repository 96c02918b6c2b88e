-- ===== src/Tapes/Tests.antt =====
-- create.py and tapes.py on concrete blocks, and the theorems at concrete inputs.
use armv.Common.{ℕ, ◌≡◌, ◌≢◌, refl, [], ◌∷◌, none, some, ok, false, arith, ◌>>=◌}
use armv.Common.Bytes.{Bytes, pack_u32}
use armv.Common.Text.{codes}
use armv.Tapes.Format.{to_synapse_format, to_binary_format, pad, len_flags}
use armv.Tapes.Blocks.{from_binary}
use armv.Tapes.Blocks.RoundTrip.{from_binary-to_binary_format, IsSynapse}
use armv.Tapes.Player.{Tape, Cursor, rewind, get_bytes}
use armv.Tapes.Player.Reading.{get_bytes-rewind, reads, content}

-- A file of extra data beside a program, five bytes long.
abbrev picture : Bytes
picture = 0 ∷ 0 ∷ 0 ∷ 8 ∷ 1 ∷ 2 ∷ 3 ∷ 4 ∷ 5 ∷ 0 ∷ 0 ∷ 0 ∷ 0 ∷ 0 ∷ 0 ∷ 0 ∷ []

picture-written :
    to_synapse_format (1 ∷ 2 ∷ 3 ∷ 4 ∷ 5 ∷ []) [] (codes "pic.bin") (some 0) none false ≡ ok picture
unfolding to_synapse_format pad pack_u32 len_flags
picture-written = refl

picture-IsSynapse : IsSynapse picture
picture-IsSynapse =
    (1 ∷ 2 ∷ 3 ∷ 4 ∷ 5 ∷ [], [], codes "pic.bin", some 0, none, false, picture-written)

from_binary-to_binary_format_example :
    (to_binary_format (picture ∷ picture ∷ []) >>= from_binary) ≡ ok (picture ∷ picture ∷ [])
from_binary-to_binary_format_example =
    from_binary-to_binary_format (picture ∷ picture ∷ []) (omega arith)
      (picture-IsSynapse, (picture-IsSynapse, tt))

one_left : ◌≢◌ {A = ℕ} 1 0
one_left e = omega arith

abbrev two_blocks : Tape ℕ
two_blocks = record {
  blocks = (1 ∷ 2 ∷ []) ∷ (3 ∷ []) ∷ [];
  start_time = 5000 ∷ 9000 ∷ [];
  preamble_len = 5000;
  origin = 0;
}

abbrev played : Cursor ℕ
played = record {
  position = 9100;
  current_block = 1;
  current_bit = 3;
  block_pos = 0;
  block_start = 9000;
}

get_bytes-rewind_example :
    get_bytes two_blocks 4 (rewind two_blocks played)
    ≡ reads 4 (content ((1 ∷ 2 ∷ []) ∷ (3 ∷ []) ∷ []))
get_bytes-rewind_example = get_bytes-rewind two_blocks 4 played (omega arith)
