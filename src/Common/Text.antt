-- ===== src/Common/Text.antt =====
-- `join` and `split` of Python's byte strings, at a separator of one byte.
use armv.Common.Tests.{◌==◌, if◌then◌else◌, ==_self, ne→==}
use armv.Common.Lists.{All}
use Prim.Native.Nat.{ℕ}
use Prim.Native.Char.{code}
use Prim.Native.String.{String}
use mathlib.Core.Path.{◌≡◌, refl}
use mathlib.Core.Logic.{◌≢◌}
use mathlib.Core.Option.{Option, none, some}
use mathlib.Core.List.{List, [], ◌∷◌, ◌++◌}
use mathlib.Core.Bool.{Bool, true, false, ◌&&◌}

-- A `str` or `bytes`, as its code points or bytes.
abbrev pub Text : Type 0
Text = List ℕ

-- The code points of a literal: its bytes, as it is ASCII.
abbrev pub codes : String → List ℕ
codes String.[] = []
codes (String.◌∷◌ c s) = code c ∷ codes s

abbrev pub same_text : Text → Text → Bool
same_text [] [] = true
same_text (c ∷ cs) (d ∷ ds) = c == d && same_text cs ds
same_text _ _ = false

-- sep.join(words)
abbrev pub join : ℕ → List Text → Text
join sep [] = []
join sep (w ∷ []) = w
join sep (w ∷ v ∷ ws) = w ++ (sep ∷ join sep (v ∷ ws))

abbrev pub grow : ℕ → List Text → List Text
grow c [] = (c ∷ []) ∷ []
grow c (w ∷ ws) = (c ∷ w) ∷ ws

-- text.split(sep): never empty, one empty word for the empty text.
unfoldable pub split : ℕ → Text → List Text
split sep [] = [] ∷ []
split sep (c ∷ cs) = let rest = split sep cs in if c == sep then [] ∷ rest else grow c rest

abbrev pub in_front : ℕ → Option (Text × Text) → Option (Text × Text)
in_front c none = none
in_front c (some (w, rest)) = some (c ∷ w, rest)

-- text.split(sep, 1), as far as it has two parts.
unfoldable pub split_once : ℕ → Text → Option (Text × Text)
split_once sep [] = none
split_once sep (c ∷ cs) =
    let rest = split_once sep cs in if c == sep then some ([], cs) else in_front c rest

abbrev pub Lacks : ℕ → Text → Type 0
Lacks sep w = All (λ c. c ≢ sep) w

pub split_word : (sep : ℕ) (w : Text) → Lacks sep w → split sep w ≡ w ∷ []
unfolding split
split_word sep [] h = refl
split_word sep (c ∷ w) h = rw (ne→== c sep h.0, split_word sep w h.1)

split-append :
    (sep : ℕ) (w rest : Text) → Lacks sep w → split sep (w ++ (sep ∷ rest)) ≡ w ∷ split sep rest
unfolding split
split-append sep [] rest h = rw (==_self sep)
split-append sep (c ∷ w) rest h = rw (ne→== c sep h.0, split-append sep w rest h.1)

-- Words without the separator are split again as they were joined.
pub split-join :
    (sep : ℕ) (w : Text) (ws : List Text)
    → All (Lacks sep) (w ∷ ws)
    → split sep (join sep (w ∷ ws)) ≡ w ∷ ws
split-join sep w [] h = split_word sep w h.0
split-join sep w (v ∷ ws) h =
    rw (split-append sep w (join sep (v ∷ ws)) h.0, split-join sep v ws h.1)

pub split_once-append :
    (sep : ℕ) (w rest : Text) → Lacks sep w → split_once sep (w ++ (sep ∷ rest)) ≡ some (w, rest)
unfolding split_once
split_once-append sep [] rest h = rw (==_self sep)
split_once-append sep (c ∷ w) rest h = rw (ne→== c sep h.0, split_once-append sep w rest h.1)

-- text.startswith(prefix)
unfoldable pub starts_with : Text → Text → Bool
starts_with [] text = true
starts_with (p ∷ prefix) [] = false
starts_with (p ∷ prefix) (c ∷ text) = c == p && starts_with prefix text

-- The text in front of the first place where `sub` begins.
unfoldable pub until_sub : Text → Text → Text
unfolding starts_with
until_sub sub [] = []
until_sub sub (c ∷ cs) =
    let rest = until_sub sub cs in if starts_with sub (c ∷ cs) then [] else c ∷ rest

abbrev pub unless_blank : ℕ → ℕ → Text → Text
unless_blank sep c [] = if c == sep then [] else c ∷ []
unless_blank sep c (d ∷ ds) = c ∷ d ∷ ds

-- text.rstrip(sep)
unfoldable pub rstrip : ℕ → Text → Text
rstrip sep [] = []
rstrip sep (c ∷ cs) = unless_blank sep c (rstrip sep cs)
