-- ===== src/Prelude/Text.antt =====
-- Texts, compared as a whole.
use Prim.Native.String.{String}
use text.Mathlib.Text.{◌==◌}
use mathlib.Core.Bool.{Bool}

abbrev pub same_text : String → String → Bool
same_text s t = s == t
