-- ===== src/Config/Examples.antt =====
-- totalrecall/config: a flag service that answers once, and one local override.
use totalrecall.Common.{false, none, some, [], ◌∷◌, ◌≡◌, refl}
use totalrecall.Common.Text.{String}
use totalrecall.Common.Dict
use totalrecall.Common.Json.{Json, entries}
use totalrecall.Common.Json
use totalrecall.Common.Outcome.{Outcome, ok, raise, other}
use totalrecall.Config.{
  Snapshot, ExternalFeatureFlagProvider, fetch_values, values_of, snapshot, stored_values,
  runtime_snapshot,
}
use totalrecall.Config.Flags.{over, last_value, snapshot-cached, runtime_snapshot-get}

abbrev rag_off : Json.Fields
rag_off = Json.field "rag.enabled" (Json.bool false) Json.end

abbrev loads : String → Outcome Json
loads text = ok (Json.obj (Json.field "values" (Json.obj rag_off) Json.end))

abbrev flags : Snapshot
flags = ("rag.enabled", Json.bool false) ∷ []

abbrev fresh : ExternalFeatureFlagProvider
fresh = record { cache_ttl = 30; cache = none; cache_expires_at = 0; last_error = none }

-- The second call of the service would fail.
snapshot-cached_example :
    snapshot loads [] (raise (other "OSError" "down")) 20 (snapshot loads [] (ok "{}") 10 fresh).1
    ≡ (flags, (snapshot loads [] (ok "{}") 10 fresh).1)
unfolding fetch_values values_of entries Dict.get
snapshot-cached_example =
    snapshot-cached loads [] [] flags (ok "{}") (raise (other "OSError" "down")) 10 20 fresh refl
      refl refl

runtime_snapshot-get_example :
    (values : Snapshot) × (runtime_snapshot loads [] (some "{}") ≡ ok values)
    × ((k : String) → Dict.get values k ≡ over (last_value flags k) (Dict.get [] k))
unfolding stored_values entries Dict.get
runtime_snapshot-get_example = runtime_snapshot-get loads [] flags (some "{}") refl
