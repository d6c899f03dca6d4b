-- ===== src/Metadata/Examples.antt =====
-- totalrecall/metadata/extractor.py: routes, of which one is made of slashes alone.
use totalrecall.Common.{◌≡◌, refl}
use totalrecall.Common.Text.{truthy}
use totalrecall.Metadata.{starts_with_slash, strip_slashes, normalize_path}

normalize_path_login : normalize_path "login/" ≡ "/login"
unfolding normalize_path starts_with_slash strip_slashes truthy
normalize_path_login = refl

normalize_path_root : (normalize_path "/" ≡ "/") × (normalize_path "" ≡ "/")
unfolding normalize_path starts_with_slash strip_slashes truthy
normalize_path_root = (refl, refl)

normalize_path_slashes : normalize_path "//" ≡ ""
unfolding normalize_path starts_with_slash strip_slashes truthy
normalize_path_slashes = refl
