-- ===== src/Config.antt =====
-- totalrecall/config/feature_flags.py and runtime_flags.py: the flags that switch the adapters. A flag
-- service is read by `fetch`, whose result is the text of the answer; `loads` is `json.loads`, `py_str`
-- and `is_true` are Python's text and truth of a value, and `normal` strips and lowers a text.
pub mod Flags
mod Examples
use totalrecall.Common.{
  ℕ, ◌+◌, Bool, true, false, ◌||◌, Option, none, some, List, [], ◌∷◌, ltb, if◌then◌else◌,
}
use totalrecall.Common.Text.{String, ◌==◌, contains}
use totalrecall.Common.Dict
use totalrecall.Common.Dict.{Dict}
use totalrecall.Common.Json.{Json, entries}
use totalrecall.Common.Json
use totalrecall.Common.Outcome.{
  Outcome, ok, raise, Exception, other, exception_text, exception_name, ◌>>=◌,
}

-- The values of a `FeatureFlagSnapshot`.
abbrev pub Snapshot : Type 0
Snapshot = Dict Json

-- `values.get(key, default)` as a Boolean, and as a text.
unfoldable pub get_bool : (Json → Bool) → (String → String) → Snapshot → String → Bool → Bool
unfolding Dict.get_or contains
get_bool is_true normal values key default = elim (Dict.get_or values key (Json.bool default)) [
  | Json.bool b ↦ b
  | Json.str s ↦ contains (normal s) ("1" ∷ "true" ∷ "yes" ∷ "on" ∷ [])
  | v ↦ is_true v
]

unfoldable pub get_string : (Json → String) → Snapshot → String → String → String
unfolding Dict.get_or
get_string py_str values key default = py_str (Dict.get_or values key (Json.str default))

-- The state of an `ExternalFeatureFlagProvider`; times are ticks of the clock.
pub record ExternalFeatureFlagProvider : Type 0 where
  pub cache_ttl : ℕ
  pub cache : Option Snapshot
  pub cache_expires_at : ℕ
  pub last_error : Option String

abbrev pub runtime_error : String → Exception
runtime_error text = other "RuntimeError" text

-- The errors of a call that the provider turns into its own.
abbrev pub is_os_error : Exception → Bool
is_os_error e = exception_name e == "OSError" || exception_name e == "URLError"

abbrev pub is_decode_error : Exception → Bool
is_decode_error e = exception_name e == "JSONDecodeError"

-- The object under the key, or the object itself when the key is missing or null.
unfoldable pub values_of : Json → Outcome Snapshot
unfolding Dict.get
values_of (Json.obj fields) = values_in fields (Dict.get (entries fields) "values")
  where
    values_in : Json.Fields → Option Json → Outcome Snapshot
    values_in fields none = ok (entries fields)
    values_in fields (some Json.null) = ok (entries fields)
    values_in fields (some (Json.obj values)) = ok (entries values)
    values_in fields (some _) =
        raise (runtime_error "External feature flag response must be an object")
values_of _ = raise (runtime_error "External feature flag response must be an object")

unfoldable pub fetch_values : (String → Outcome Json) → Outcome String → Outcome Snapshot
unfolding values_of
fetch_values loads (raise e) =
    raise
      (if is_os_error e then runtime_error "External feature flag service is unavailable" else e)
fetch_values loads (ok raw) = elim (loads raw) [
  | ok payload ↦ values_of payload
  | raise e ↦ raise (
      if is_decode_error e
      then runtime_error "External feature flag response is not valid JSON"
      else e)
]

abbrev pub is_fresh : ExternalFeatureFlagProvider → ℕ → Bool
is_fresh p now = elim p.cache [ none ↦ false | some values ↦ ltb now p.cache_expires_at ]

abbrev pub cached : ExternalFeatureFlagProvider → Snapshot
cached p = elim p.cache [ none ↦ [] | some values ↦ values ]

-- `fallback` is the snapshot of the fallback, and `fetch` what a call of the service comes to now.
unfoldable pub snapshot :
    (String → Outcome Json)
    → Snapshot
    → Outcome String
    → ℕ
    → ExternalFeatureFlagProvider
    → Snapshot × ExternalFeatureFlagProvider
unfolding fetch_values
snapshot loads fallback fetch now p =
    if is_fresh p now then (cached p, p) else elim (fetch_values loads fetch) [
      | ok values ↦ (
        values,
        record p { cache = some values; cache_expires_at = now + p.cache_ttl; last_error = none },
      )
      | raise e ↦ (fallback, record p { last_error = some (exception_text e) })
    ]

-- `values.update(overrides)`, and the snapshot of a `RuntimeFeatureFlagProvider`.
unfoldable pub update : Snapshot → Snapshot → Snapshot
update values [] = values
update values ((k, v) ∷ overrides) = update (Dict.put values k v) overrides

-- `RuntimeFeatureFlagStore.values`, from the text of its file, or none when there is no file.
unfoldable pub stored_values : (String → Outcome Json) → Option String → Outcome Snapshot
unfolding Dict.get
stored_values loads none = ok []
stored_values loads (some text) = elim (loads text) [
  | raise e ↦ if is_decode_error e then ok [] else raise e
  | ok (Json.obj fields) ↦ ok (dict_in (Dict.get (entries fields) "values"))
  | ok v ↦ ok []
]
  where
    dict_in : Option Json → Snapshot
    dict_in (some (Json.obj values)) = entries values
    dict_in _ = []

unfoldable pub runtime_snapshot :
    (String → Outcome Json) → Snapshot → Option String → Outcome Snapshot
unfolding update stored_values
runtime_snapshot loads fallback file = do
  overrides ← stored_values loads file
  ok (update fallback overrides)
