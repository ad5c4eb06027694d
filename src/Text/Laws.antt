-- ===== src/Text/Laws.antt =====
-- Trimming white space.
use Prim.Native.Char.{Char, code}
use Prim.Native.String.{String}
use text.Mathlib.TextLemmas.{cons-ne-nil}
use machine_controller_manag.Base.{◌≡◌, ◌≢◌, false}
use machine_controller_manag.Text.{is_space, trim_right, trim_space}

-- A text that begins with a visible character is not blank.
pub trim_space-ne-nil :
    (c : Char) (s : String) → is_space (code c) ≡ false → trim_space (String.◌∷◌ c s) ≢ ""
unfolding trim_space
trim_space-ne-nil c s h e = cons-ne-nil c (trim_right s) (rw (h) at (rw h at e))
