-- ===== src/Debugger/Files.antt =====
-- debugger.py: the files that gdb opens, handle_file_open, _close, _fstat and _pread.
-- The file's contents are an argument of `handle_file_open`: get_file builds them with a library.
pub mod Laws
use armv.Common.{
  ℕ, zero, suc, ◌+◌, ◌-◌, List, [], Option, none, some, ◌==◌, if◌then◌else◌, length, take, drop,
}
use armv.Common.Bytes.{Bytes}
use armv.Common.Int.{ℤ, pos, negsuc, sub_ℕ}
use armv.Gdb.Reply.{Reply, empty_reply, file_response, fstat_response, pread_response}

-- self.open_fds, whose keys come from range(10)
abbrev pub Fds : Type 0
Fds = ℕ → Option Bytes

abbrev pub with_fd : Fds → ℕ → Option Bytes → Fds
with_fd fds fd file i = if i == fd then file else fds i

-- self.open_fds[fd], none for a missing key
abbrev pub lookup : Fds → ℤ → Option Bytes
lookup fds (pos fd) = fds fd
lookup fds (negsuc n) = none

-- The first free number of `left` ones from `fd` on.
unfoldable pub first_free : ℕ → ℕ → Fds → Option ℕ
first_free zero fd fds = none
first_free (suc left) fd fds =
    let later = first_free left (suc fd) fds in elim (fds fd) [ none ↦ some fd | some file ↦ later ]

abbrev pub opened : Bytes → Fds → Option ℕ → Reply × Fds
opened file fds none = (empty_reply, fds)
opened file fds (some fd) = (file_response (pos fd), with_fd fds fd (some file))

unfoldable pub handle_file_open : Bytes → Fds → Reply × Fds
unfolding first_free
handle_file_open file fds = opened file fds (first_free 10 0 fds)

abbrev pub closed : Fds → ℤ → Option Bytes → Reply × Fds
closed fds (pos fd) (some file) = (file_response (pos 0), with_fd fds fd none)
closed fds _ _ = (file_response (negsuc 0), fds)

unfoldable pub handle_file_close : ℤ → Fds → Reply × Fds
handle_file_close fd fds = closed fds fd (lookup fds fd)

unfoldable pub handle_file_fstat : ℤ → Fds → Reply
handle_file_fstat fd fds = elim (lookup fds fd) [
  | none ↦ file_response (negsuc 0)
  | some file ↦ fstat_response (length file)
]

infixl 6 ◌+ℤ◌
abbrev pub ◌+ℤ◌ : ℤ → ℤ → ℤ
pos a +ℤ pos b = pos (a + b)
pos a +ℤ negsuc b = sub_ℕ a (suc b)
negsuc a +ℤ pos b = sub_ℕ b (suc a)
negsuc a +ℤ negsuc b = negsuc (suc (a + b))

-- An index of a slice: a negative one counts from the end and stops at the start.
abbrev pub slice_index : ℕ → ℤ → ℕ
slice_index len (pos n) = n
slice_index len (negsuc n) = len - suc n

-- f[start:end]
abbrev pub file_slice : Bytes → ℤ → ℤ → Bytes
file_slice file start end =
    drop (slice_index (length file) start) (take (slice_index (length file) end) file)

unfoldable pub handle_file_pread : (fd count offset : ℤ) → Fds → Reply
handle_file_pread fd count offset fds = elim (lookup fds fd) [
  | none ↦ file_response (negsuc 0)
  | some file ↦ pread_response (file_slice file offset (offset +ℤ count))
]
