-- ===== src/Metadata/Paths.antt =====
-- totalrecall/metadata/extractor.py: the form of a normalized route.
use totalrecall.Common.{Bool, true, false, ◌&&◌, ◌≡◌, if◌then◌else◌}
use totalrecall.Common.Text.{String, truthy}
use totalrecall.Metadata.{is_slash, starts_with_slash}
use Prim.Native.Char.{code}

-- A slash at the end.
abbrev pub ends_with_slash : String → Bool
ends_with_slash String.[] = false
ends_with_slash (String.◌∷◌ c s) =
    let rest = ends_with_slash s in if truthy s then rest else is_slash (code c)

-- Slashes alone.
abbrev pub only_slashes : String → Bool
only_slashes String.[] = true
only_slashes (String.◌∷◌ c s) = is_slash (code c) && only_slashes s

-- A text followed by another.
abbrev pub followed : String → String → String
followed String.[] t = t
followed (String.◌∷◌ c s) t = String.◌∷◌ c (followed s t)

-- The route with a slash in front.
abbrev pub rooted : String → String
rooted route = if starts_with_slash route then route else String.◌∷◌ "/" route

-- What the slashes at the end of a text leave: a text without one, which they follow.
abbrev pub Leaves : String → String → Type 0
Leaves s r =
    (ends_with_slash r ≡ false)
    × ((tail : String) × (only_slashes tail ≡ true) × (s ≡ followed r tail))
