-- ===== src/Debugger/Files/Laws.antt =====
-- debugger.py: the number that an opened file gets, and what is read through it.
use armv.Common.{
  ℕ, zero, suc, ◌+◌, ◌<◌, ◌≤◌, ◌≡◌, ◌≢◌, ap, ◌∙◌, arith, none, some, Option-cases, inl, inr, ◌==◌,
  ==_self, if◌then◌else◌, length, take, drop, Bool-cases, ==_iff,
}
use armv.Common.Bytes.{Bytes}
use armv.Common.Int.{pos}
use armv.Gdb.Reply.{file_response, fstat_response, pread_response}
use armv.Debugger.Files.{
  Fds, first_free, handle_file_open, handle_file_close, handle_file_fstat, handle_file_pread,
}

-- The lowest free number from `start` on.
abbrev pub IsLowest : Fds → ℕ → ℕ → Type 0
IsLowest fds start fd = (fds fd ≡ none) × ((i : ℕ) → start ≤ i → i < fd → fds i ≢ none)

first_free_lem :
    (left start : ℕ) (fds : Fds) (free : ℕ)
    → start ≤ free
    → free < start + left
    → fds free ≡ none
    → (fd : ℕ) × (first_free left start fds ≡ some fd)
      × (fd ≤ free)
      × (start ≤ fd)
      × IsLowest fds start fd
unfolding first_free
first_free_lem zero start fds free low high e = absurd (omega arith)
first_free_lem (suc left) start fds free low high e = elim (Option-cases (fds start)) [
  | inl empty ↦ (
    start,
    rw (first_free, empty),
    low,
    omega arith,
    (empty, λ i below above. absurd (omega arith)),
  )
  | inr (file, taken) ↦
      let (fd, found, bound, above, (unused, lower)) =
        first_free_lem left (suc start) fds free (next file taken) (omega arith) e in
      (
        fd,
        rw (first_free, taken) found,
        bound,
        omega arith,
        (
          unused,
          λ i from to. elim (Bool-cases (i == start)) [
            | inl same ↦ is_taken file taken i ((==_iff i start).0 same)
            | inr other ↦ lower i (ground arith) to
          ],
        ),
      )
]
  where
    clash : (file : Bytes) → fds start ≡ some file → start ≢ free
    clash file taken same = absurd_fd file (ap fds same ∙ e) taken
      where
        absurd_fd : (file : Bytes) → fds start ≡ none → fds start ≡ some file → ⊥
        absurd_fd file p q = cc

    next : (file : Bytes) → fds start ≡ some file → suc start ≤ free
    next file taken = ground (arith, clash file taken)

    is_taken : (file : Bytes) → fds start ≡ some file → (i : ℕ) → i ≡ start → fds i ≢ none
    is_taken file taken i same gone = cc

lowest :
    (fds : Fds) (free : ℕ)
    → free < 10
    → fds free ≡ none
    → (fd : ℕ) × (first_free 10 0 fds ≡ some fd) × (fd ≤ free) × (0 ≤ fd) × IsLowest fds 0 fd
lowest fds free h e = first_free_lem 10 0 fds free (omega arith) (omega arith) e

-- What follows from opening a file as number `fd`: its size and contents are read through the number,
-- every other number is as before, and closing it frees the number again.
abbrev pub Serves : Bytes → Fds → ℕ → Type 0
Serves file fds fd =
    let later = (handle_file_open file fds).1 in
    ((handle_file_open file fds).0 ≡ file_response (pos fd))
    × (handle_file_fstat (pos fd) later ≡ fstat_response (length file))
    × ((count offset : ℕ)
        → handle_file_pread (pos fd) (pos count) (pos offset) later
          ≡ pread_response (drop offset (take (offset + count) file)))
    × ((i : ℕ) → later i ≡ (if i == fd then some file else fds i))
    × ((handle_file_close (pos fd) later).0 ≡ file_response (pos 0))
    × ((i : ℕ) → (handle_file_close (pos fd) later).1 i ≡ (if i == fd then none else fds i))

serves : (file : Bytes) (fds : Fds) (fd : ℕ) → first_free 10 0 fds ≡ some fd → Serves file fds fd
unfolding handle_file_open handle_file_fstat handle_file_pread handle_file_close
serves file fds fd found = (
  rw found,
  rw (found, handle_file_fstat, ==_self fd),
  λ count offset. rw (found, handle_file_pread, ==_self fd),
  λ i. rw found,
  rw (found, ==_self fd),
  λ i. rw (found, ==_self fd) (by_case i),
)
  where
    by_case :
        (i : ℕ)
        → (if i == fd then none else (if i == fd then some file else fds i))
          ≡ (if i == fd then none else fds i)
    by_case i = elim (Bool-cases (i == fd)) [ inl e ↦ rw e | inr e ↦ rw e ]

-- While one of the ten numbers is free, opening a file gives the lowest free one, and the file is
-- served under it until it is closed.
pub handle_file_open_lem :
    (file : Bytes) (fds : Fds) (free : ℕ)
    → free < 10
    → fds free ≡ none
    → (fd : ℕ) × (fd ≤ free) × IsLowest fds 0 fd × Serves file fds fd
handle_file_open_lem file fds free h e =
    let (fd, found, bound, start, least) = lowest fds free h e in
    (fd, bound, least, serves file fds fd found)
