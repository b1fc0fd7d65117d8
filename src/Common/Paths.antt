-- ===== src/Common/Paths.antt =====
-- Slashes in texts: strings.Trim, TrimRight and TrimSuffix with "/", path.Base and filepath.Ext.
pub mod Laws
use Prim.Native.Nat.{ℕ}
use Prim.Native.Char.{Char, code}
use Prim.Native.String.{String, [], ◌∷◌}
use mathlib.Core.Bool.{Bool}
use text.Mathlib.Text.{◌==◌}
use infrastructure_managemen.Common.Tests.{eqb, if◌then◌else◌}

abbrev pub is_slash : Char → Bool
is_slash c = eqb (code c) b'/'

unfoldable pub trim_left_slashes : String → String
trim_left_slashes [] = []
trim_left_slashes (c ∷ s) = let rest = trim_left_slashes s in if is_slash c then rest else c ∷ s

-- A character before a text that is trimmed on its right.
unfoldable pub keep_slash : Char → String → String
keep_slash c [] = if is_slash c then [] else c ∷ []
keep_slash c (d ∷ s) = c ∷ (d ∷ s)

-- strings.TrimRight(s, "/")
unfoldable pub trim_right_slashes : String → String
unfolding keep_slash
trim_right_slashes [] = []
trim_right_slashes (c ∷ s) = keep_slash c (trim_right_slashes s)

-- strings.Trim(s, "/")
unfoldable pub trim_slashes : String → String
unfolding trim_left_slashes trim_right_slashes
trim_slashes s = trim_right_slashes (trim_left_slashes s)

-- strings.TrimSuffix(s, "/")
unfoldable pub trim_suffix_slash : String → String
trim_suffix_slash [] = []
trim_suffix_slash (c ∷ []) = if is_slash c then [] else c ∷ []
trim_suffix_slash (c ∷ (d ∷ s)) = c ∷ trim_suffix_slash (d ∷ s)

-- What stands behind the last slash, or else the given text.
unfoldable pub last_element : String → String → String
last_element found [] = found
last_element found (c ∷ s) = if is_slash c then last_element s s else last_element found s

abbrev pub or_slash : String → String
or_slash s = if s == "" then "/" else s

-- path.Base
unfoldable pub base : String → String
unfolding trim_right_slashes last_element
base s = let t = trim_right_slashes s in if s == "" then "." else or_slash (last_element t t)

-- The suffix from the last dot on, or else the given text; a slash forgets the dots before it.
unfoldable pub extension_from : String → String → String
extension_from found [] = found
extension_from found (c ∷ s) =
    if is_slash c
    then extension_from [] s
    else if eqb (code c) b'.'
    then extension_from (c ∷ s) s
    else extension_from found s

-- filepath.Ext
unfoldable pub extension : String → String
unfolding extension_from
extension s = extension_from [] s
