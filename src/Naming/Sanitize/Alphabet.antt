-- ===== src/Naming/Sanitize/Alphabet.antt =====
-- The alphabet of the names that `sanitize` makes.
use Prim.Native.Char.{Char}
use granite.Common.{String}
