-- ===== src/Version.antt =====
-- include/picomesh/version.h: the version of the library.
use Prim.Native.String.{String}
use picomesh.Base.{ℕ}

abbrev pub version_major : ℕ
version_major = 0

abbrev pub version_minor : ℕ
version_minor = 1

abbrev pub version_patch : ℕ
version_patch = 0

abbrev pub version_string : String
version_string = "0.1.0"
