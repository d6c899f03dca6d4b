-- ===== src/Config/Flags.antt =====
-- totalrecall/config: how long a snapshot of the flags is kept, and which value of a flag wins.
use totalrecall.Common.{
  ℕ, ◌+◌, true, false, Option, none, some, [], ◌∷◌, ◌≡◌, refl, ltb, Bool-cases, Option-cases, inl,
  inr, if◌then◌else◌,
}
use totalrecall.Common.Text.{String, ◌==◌}
use totalrecall.Common.Dict
use totalrecall.Common.Dict.{get-put}
use totalrecall.Common.Json.{Json}
use totalrecall.Common.Outcome.{Outcome, ok}
use totalrecall.Config.{
  Snapshot, ExternalFeatureFlagProvider, is_fresh, fetch_values, snapshot, update, stored_values,
  runtime_snapshot,
}

-- If the provider asks the flag service and gets values, then before the time to live of those values is
-- over, a later snapshot gives the same values and leaves the provider as it is, whatever the service
-- and the fallback hold by then.
pub snapshot-cached :
    (loads : String → Outcome Json) (fallback fallback' values : Snapshot)
    (fetch fetch' : Outcome String) (now later : ℕ) (p : ExternalFeatureFlagProvider)
    → is_fresh p now ≡ false
    → fetch_values loads fetch ≡ ok values
    → ltb later (now + p.cache_ttl) ≡ true
    → let p' = (snapshot loads fallback fetch now p).1 in
      snapshot loads fallback' fetch' later p' ≡ (values, p')
unfolding snapshot
snapshot-cached loads fallback fallback' values fetch fetch' now later p stale fetched early =
    rw (stale, fetched, early) refl

-- The last value that a list of overrides gives a key.
abbrev pub last_value : Snapshot → String → Option Json
last_value [] k = none
last_value ((j, v) ∷ overrides) k = elim (last_value overrides k) [
  | some w ↦ some w
  | none ↦ if j == k then some v else none
]

abbrev pub over : Option Json → Option Json → Option Json
over (some v) w = some v
over none w = w

get-update :
    (values overrides : Snapshot) (k : String)
    → Dict.get (update values overrides) k ≡ over (last_value overrides k) (Dict.get values k)
unfolding update
get-update values [] k = refl
get-update values ((j, v) ∷ overrides) k = elim (Option-cases (last_value overrides k)) [
  | inr (w, e) ↦ rw (get-update (Dict.put values j v) overrides k, e) refl
  | inl e ↦
      rw (get-update (Dict.put values j v) overrides k, e, get-put values j k v)
        (elim (Bool-cases (j == k)) [ inl f ↦ rw f refl | inr f ↦ rw f refl ])
]

-- If the file of the local overrides is read as such, a flag has the value that the overrides give it
-- last, and the fallback's value if they give it none.
pub runtime_snapshot-get :
    (loads : String → Outcome Json) (fallback overrides : Snapshot) (file : Option String)
    → stored_values loads file ≡ ok overrides
    → (values : Snapshot) × (runtime_snapshot loads fallback file ≡ ok values)
      × ((k : String) → Dict.get values k ≡ over (last_value overrides k) (Dict.get fallback k))
unfolding runtime_snapshot
runtime_snapshot-get loads fallback overrides file h =
    (update fallback overrides, rw (h, runtime_snapshot) refl, get-update fallback overrides)
