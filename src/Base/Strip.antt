-- ===== src/Base/Strip.antt =====
-- `str.strip()`, `str.lower()`, `str.split(",")` and `str.split()` on code points.
use Prim.Native.Nat.{ℕ, ◌+◌}
use mathlib.Core.Bool.{Bool, true, false, ◌&&◌, ◌||◌}
use mathlib.Core.List.{List, [], ◌∷◌, ◌++◌, map}
use fl_op.Base.Tests.{leb, eqb, if◌then◌else◌}
use fl_op.Base.Texts.{Text}

-- `c.isspace()`
pub is_space : ℕ → Bool
is_space c =
    leb 9 c && leb c 13
    || leb 28 c && leb c 32
    || eqb c 133
    || eqb c 160
    || eqb c 5760
    || leb 8192 c && leb c 8202
    || eqb c 8232
    || eqb c 8233
    || eqb c 8239
    || eqb c 8287
    || eqb c 12288

-- `s.lstrip()`
pub lstrip : Text → Text
unfolding is_space
lstrip [] = []
lstrip (c ∷ s) = if is_space c then lstrip s else c ∷ s

-- A character before text that is stripped on the right: a space before nothing goes too.
pub before_stripped : ℕ → Text → Text
unfolding is_space
before_stripped c [] = if is_space c then [] else c ∷ []
before_stripped c (d ∷ r) = c ∷ d ∷ r

-- `s.rstrip()`
pub rstrip : Text → Text
unfolding before_stripped
rstrip [] = []
rstrip (c ∷ s) = before_stripped c (rstrip s)

unfoldable pub strip : Text → Text
unfolding lstrip rstrip
strip s = rstrip (lstrip s)

-- `s.lower()` as far as letters of the ASCII range go.
unfoldable pub lower : Text → Text
lower = map (λ c. if leb 65 c && leb c 90 then c + 32 else c)

-- A character put before the first piece of a split.
abbrev extend_first : ℕ → List Text → List Text
extend_first c [] = (c ∷ []) ∷ []
extend_first c (p ∷ ps) = (c ∷ p) ∷ ps

-- `s.split(sep)` at a single character
unfoldable pub split_on : ℕ → Text → List Text
split_on sep [] = [] ∷ []
split_on sep (c ∷ s) =
    let rest = split_on sep s in if eqb c sep then [] ∷ rest else extend_first c rest

abbrev pub is_empty {ℓ} : {A : Type ℓ} → List A → Bool
is_empty [] = true
is_empty (_ ∷ _) = false

-- `s.split()`: the runs of characters that are no spaces; `word` is the run that is open
unfoldable pub words_from : Text → Text → List Text
unfolding is_space
words_from word [] = if is_empty word then [] else word ∷ []
words_from word (c ∷ s) =
    let closed = words_from [] s in
    let longer = words_from (word ++ c ∷ []) s in
    if is_space c then (if is_empty word then closed else word ∷ closed) else longer

unfoldable pub words : Text → List Text
unfolding words_from
words = words_from []

-- `s.partition(sep)` at a single character: what stands before the first one, and after it
unfoldable pub partition : ℕ → Text → Text × Text
partition sep [] = ([], [])
partition sep (c ∷ s) =
    let (before, after) = partition sep s in if eqb c sep then ([], s) else (c ∷ before, after)
