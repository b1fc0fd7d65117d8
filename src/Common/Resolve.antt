-- ===== src/Common/Resolve.antt =====
-- What the services' ResolvePath asks of the file system: filepath.IsAbs, os.Stat, filepath.Abs, and
-- filepath.Join after filepath.Dir.
use Prim.Native.String.{String}
use mathlib.Core.Bool.{Bool}
use infrastructure_managemen.Common.Results.{Result}

pub record Paths : Type 0 where
  pub is_abs : String → Bool
  pub exists : String → Bool
  pub absolute : String → Result String String
  -- the path relative to the directory of a file
  pub beside : String → String → String
