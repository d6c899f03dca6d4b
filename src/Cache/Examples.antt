-- ===== src/Cache/Examples.antt =====
-- A cache of numbers, and the keys of two tenants.
use totalrecall.Common.{ℕ, ◌≡◌, none, [], ◌∷◌}
use totalrecall.Common.Text.{String, ◌++◌}
use totalrecall.Common.Dict.{Dict}
use totalrecall.Common.Json.{Json}
use totalrecall.Cache.{TtlCache, set, invalidate_prefix, build_search_cache_key}
use totalrecall.Cache.Laws.{view, view-set, view-invalidate_prefix, search_key-collision}

abbrev numbers : TtlCache ℕ
numbers = record {
  ttl = 30;
  store =
      ("msearch:acme:shop:1", record { value = 7; expires_at = 50 })
      ∷ ("msearch:globex:shop:1", record { value = 8; expires_at = 50 })
      ∷ [];
}

view-set_example : view 45 (set 10 numbers "msearch:acme:shop:1" 9) "msearch:acme:shop:1" ≡ none
view-set_example = view-set 10 45 numbers "msearch:acme:shop:1" "msearch:acme:shop:1" 9

view-invalidate_prefix_example :
    view 45 (invalidate_prefix numbers "msearch:acme:shop:").1 "msearch:globex:shop:1"
    ≡ view 45 numbers "msearch:globex:shop:1"
view-invalidate_prefix_example =
    view-invalidate_prefix 45 numbers "msearch:acme:shop:" "msearch:globex:shop:1"

-- A digest for the examples.
abbrev digest : String → Dict Json → ℕ → String
digest query filters limit = query

search_key-collision_example :
    build_search_cache_key digest "acme" ("shop" ++ (":" ++ "eu")) "login" [] 5
    ≡ build_search_cache_key digest ("acme" ++ (":" ++ "shop")) "eu" "login" [] 5
search_key-collision_example = search_key-collision digest "acme" "shop" "eu" "login" [] 5
