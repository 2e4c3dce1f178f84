-- ===== src/Tests/Release.antt =====
-- The version constants agree with one another.
use Prim.Native.Char.{code}
use Prim.Native.String.{String}
use picomesh.Base.{ℕ, ◌+◌, ◌≡◌, refl, List, [], ◌∷◌}
use picomesh.Version.{version_major, version_minor, version_patch, version_string}

-- The code points of a text.
abbrev codes : String → List ℕ
codes String.[] = []
codes (String.◌∷◌ c s) = code c ∷ codes s

abbrev digit : ℕ → ℕ
digit n = b'0' + n

-- The text is the three components, with dots between them.
version_text :
    codes version_string
    ≡ digit version_major ∷ b'.' ∷ digit version_minor ∷ b'.' ∷ digit version_patch ∷ []
version_text = refl
