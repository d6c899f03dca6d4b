-- ===== src/Memory/StubLaws.antt =====
-- What the in-memory adapter promises its callers.
use totalrecall.Common.{
  ◌≤◌, ◌≡◌, refl, sym, ap, subst, ◌∙◌, Bool, true, false, ◌&&◌, Option, none, some, [], ◌∷◌, arith,
  length, filter, length-take-le, All, All-take, All-filter_test, Bool-cases, Option-cases, inl,
  inr, if◌then◌else◌,
}
use totalrecall.Common.Text.{String, ◌==◌, eq_iff, eq_refl}
use totalrecall.Common.Dict
use totalrecall.Common.Dict.{Dict, get-put}
use totalrecall.Common.Json.{Json}
use totalrecall.Common.Outcome.{ok, ok-injective}
use totalrecall.Memory.Models.{
  MemoryStatus, active, MemoryEntry, MemorySearchRequest, MemorySearchResult, MemoryGetRequest,
  MemoryUpsertRequest, MemoryDeleteRequest,
}
use totalrecall.Memory.Stub.{is_active, matches, search, owned, get, upsert, delete, stub_adapter}
use totalrecall.Memory.Clean.{IsOwn, IsScoped, All-map}
use mathlib.Core.Option.{some-injective}

is_active_iff : (s : MemoryStatus) → is_active s ≡ true → s ≡ active
is_active_iff active h = refl
is_active_iff MemoryStatus.deleted h = absurd (ground arith)
is_active_iff MemoryStatus.tombstoned h = absurd (ground arith)
is_active_iff MemoryStatus.deprecated h = absurd (ground arith)

-- An active entry of the request's tenant and application.
abbrev pub IsFound : MemorySearchRequest → MemoryEntry → Type 0
IsFound request e = IsOwn request e × (e.status ≡ active)

matches-IsFound :
    (json_eq : Json → Json → Bool) (request : MemorySearchRequest) (e : MemoryEntry)
    → matches json_eq request e ≡ true
    → IsFound request e
matches-IsFound json_eq request e h = (
  (
    (eq_iff e.tenant_id request.tenant_id).0 (ground arith),
    (eq_iff e.application_id request.application_id).0 (ground arith),
  ),
  is_active_iff e.status (ground arith),
)

-- A search that returns gives at most `limit` entries, all of them active and of the request's tenant
-- and application.
pub search-IsFound :
    (json_eq : Json → Json → Bool) (request : MemorySearchRequest) (entries : Dict MemoryEntry)
    (r : MemorySearchResult)
    → (search json_eq request entries).0 ≡ ok r
    → All (IsFound request) r.items × (length r.items ≤ request.limit)
unfolding search
search-IsFound json_eq request entries r h =
    let found = filter (matches json_eq request) (Dict.values entries) in
    subst (λ s. All (IsFound request) s.items × (length s.items ≤ request.limit)) (ok-injective h)
      (
        All-take (IsFound request) request.limit found (
            All-filter_test (IsFound request) (matches json_eq request)
              (matches-IsFound json_eq request) (Dict.values entries)),
        length-take-le request.limit found,
      )

-- What an entry, or none, of the identifier answers a reader.
abbrev pub answer : MemoryGetRequest → Option MemoryEntry → Option MemoryEntry
answer g none = none
answer g (some e) =
    if owned g.tenant_id g.application_id e && is_active e.status then some e else none

get-answer :
    (g : MemoryGetRequest) (entries : Dict MemoryEntry)
    → (get g entries).0 ≡ ok (answer g (Dict.get entries g.entity_id))
unfolding get
get-answer g entries = ground arith

-- After an upsert, its identifier reads the new entry, if that is active and of the reader's tenant
-- and application; every other identifier reads as before.
pub upsert-get :
    (u : MemoryUpsertRequest) (g : MemoryGetRequest) (entries : Dict MemoryEntry)
    → (get g (upsert u entries).1).0 ≡ (
        if u.memory.entity_id == g.entity_id
        then ok (answer g (some u.memory))
        else (get g entries).0)
upsert-get u g entries =
    get-answer g (upsert u entries).1
    ∙ unfold upsert in
      rw (get-put, get-answer g entries)
        (elim (Bool-cases (u.memory.entity_id == g.entity_id)) [ inl e ↦ rw e | inr e ↦ rw e ])

-- The entry that a deletion leaves under its identifier.
abbrev mark : MemoryDeleteRequest → Option MemoryEntry → Option MemoryEntry
mark d none = none
mark d (some e) =
    if owned d.tenant_id d.application_id e
    then some (record e { status = MemoryStatus.deleted })
    else some e

get-delete_self :
    (d : MemoryDeleteRequest) (entries : Dict MemoryEntry)
    → Dict.get (delete d entries).1 d.entity_id ≡ mark d (Dict.get entries d.entity_id)
get-delete_self d entries = elim (Option-cases (Dict.get entries d.entity_id)) [
  | inl e ↦ unfold delete in rw (e, delete, e)
  | inr (entry, e) ↦ elim (Bool-cases (owned d.tenant_id d.application_id entry)) [
    | inl own ↦ unfold delete in rw (e, delete, own, get-put, eq_refl)
    | inr other ↦ unfold delete in rw (e, delete, other, e)
  ]
]

get-delete_other :
    (d : MemoryDeleteRequest) (entries : Dict MemoryEntry) (k : String)
    → d.entity_id == k ≡ false
    → Dict.get (delete d entries).1 k ≡ Dict.get entries k
get-delete_other d entries k different = elim (Option-cases (Dict.get entries d.entity_id)) [
  | inl e ↦ unfold delete in rw (e, delete)
  | inr (entry, e) ↦ elim (Bool-cases (owned d.tenant_id d.application_id entry)) [
    | inl own ↦ unfold delete in rw (e, delete, own, get-put, different)
    | inr other ↦ unfold delete in rw (e, delete, other)
  ]
]

-- What a reader of the same identifier finds of the entry that a deletion leaves.
answer-mark :
    (d : MemoryDeleteRequest) (g : MemoryGetRequest) (o : Option MemoryEntry)
    → answer g (mark d o) ≡ (
        if d.tenant_id == g.tenant_id && d.application_id == g.application_id
        then none
        else answer g o)
answer-mark d g none = ground arith
answer-mark d g (some entry) = ground (
  arith,
  eq_iff entry.tenant_id d.tenant_id,
  eq_iff entry.application_id d.application_id,
  eq_iff entry.tenant_id g.tenant_id,
  eq_iff entry.application_id g.application_id,
  eq_iff d.tenant_id g.tenant_id,
  eq_iff d.application_id g.application_id,
)

-- After a deletion, whoever reads the same identifier for the same tenant and application gets
-- nothing, whether the deletion found an entry or not; every other read answers as before.
pub delete-get :
    (d : MemoryDeleteRequest) (g : MemoryGetRequest) (entries : Dict MemoryEntry)
    → (get g (delete d entries).1).0 ≡ (
        if d.entity_id == g.entity_id
          && d.tenant_id == g.tenant_id
          && d.application_id == g.application_id
        then ok none
        else (get g entries).0)
delete-get d g entries =
    get-answer g (delete d entries).1
    ∙ rw (get-answer g entries) (elim (Bool-cases (d.entity_id == g.entity_id)) [
      | inl same ↦ rw same (
          ap (λ k. ok (answer g (Dict.get (delete d entries).1 k)))
            (sym ((eq_iff d.entity_id g.entity_id).0 same))
          ∙ rw (get-delete_self d entries, answer-mark d g, (eq_iff d.entity_id g.entity_id).0 same)
              (ground arith))
      | inr different ↦
          rw different
            (ap (λ o. ok (answer g o)) (get-delete_other d entries g.entity_id different))
    ])

-- An adapter set that holds in-memory adapters alone keeps the contract of a search.
pub stub_adapter-IsScoped :
    (json_eq : Json → Json → Bool) → IsScoped (("stub", stub_adapter json_eq) ∷ [])
unfolding stub_adapter
stub_adapter-IsScoped json_eq name adapter request w r registered returned =
    elim (Bool-cases ("stub" == name)) [
      | inr different ↦ absurd (unfold Dict.get in (ground arith))
      | inl same ↦
          let found : stub_adapter json_eq ≡ adapter =
            some-injective (stub_adapter json_eq) adapter (unfold Dict.get in (ground arith)) in
          All-map (IsFound request) (IsOwn request) (λ e f. f.0) r.items
            (search-IsFound json_eq request w r
              (subst (λ a. (a.search request w).0 ≡ ok r) (sym found) returned)).0
    ]
