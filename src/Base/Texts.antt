-- ===== src/Base/Texts.antt =====
-- Text as code points.
use Prim.Native.Nat.{ℕ}
use Prim.Native.Char.{code}
use Prim.Native.String.{String}
use mathlib.Core.List.{List, [], ◌∷◌}
use fl_op.Base.Keys.{Keyed, nat_eq, list_eq}

abbrev pub Text : Type 0
Text = List ℕ

instance abbrev pub text_eq : Keyed Text
text_eq = list_eq

-- A literal's code points.
abbrev pub codes : String → Text
codes String.[] = []
codes (String.◌∷◌ c s) = code c ∷ codes s
