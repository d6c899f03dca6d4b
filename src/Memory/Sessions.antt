-- ===== src/Memory/Sessions.antt =====
-- A deletion followed by any calls of the service: the deleted memory stays out of sight.
use totalrecall.Common.{
  ℕ, ◌≡◌, refl, ap, ◌∙◌, false, Option, none, some, List, [], ◌∷◌, arith, All, Bool-cases, inl, inr,
}
use totalrecall.Common.Text.{String, ◌==◌, eq_iff, starts_with}
use totalrecall.Common.Dict.{Dict}
use totalrecall.Common.Json.{Json}
use totalrecall.Common.Outcome.{Outcome, ok, raise, Outcome-cases}
use totalrecall.Auth.{TenantContext, has_permission, delete_memory as may_delete}
use totalrecall.Cache.{TtlCache, search_invalidation_prefix}
use totalrecall.Cache.Laws.{get-invalidate_prefix}
use totalrecall.Memory.Models.{
  MemoryEntry, MemorySearchRequest, MemorySearchResult, MemoryGetRequest, MemoryUpsertRequest,
  MemoryDeleteRequest, MemoryAdapter,
}
use totalrecall.Memory.Tombstone
use totalrecall.Memory.Tombstone.{TombstoneFilter, triple_eq, is_tombstoned, is_tombstoned-add}
use totalrecall.Memory.Wrapper
use totalrecall.Memory.Wrapper.{MemoryWrapper, Clock, counted, on_active}
use totalrecall.Memory.Deletion.{MemoryDeleteBody, Store, invalidate, delete_memory}
use totalrecall.Memory.Clean.{IsShown, IsFiled, IsClean, IsScoped}
use totalrecall.Memory.Visibility.{on_active-frame, search-IsSound}

-- A call of the service.
pub data Call : Type 0 where
  search : Clock → MemorySearchRequest → Call
  get : Clock → MemoryGetRequest → Call
  upsert : Clock → MemoryUpsertRequest → Call
  delete : Clock → MemoryDeleteRequest → Call
  forget : (insert audit : Outcome (Unit {0})) → TenantContext → String → MemoryDeleteBody → Call

-- The audit event of a deletion is written.
abbrev pub IsAudited : Call → Type 0
IsAudited (forget insert audit context entity_id body) = audit ≡ ok tt
IsAudited _ = Unit

module _ {W : Type 0} (flags : String → String → String) (adapters : Dict (MemoryAdapter W))
    (digest : String → Dict Json → ℕ → String) where
  -- The state that a call leaves.
  unfoldable pub serve : Store W → Call → Store W
  serve s (search clock request) = record s {
    wrapper = (Wrapper.search flags adapters digest clock request s.wrapper).1;
  }
  serve s (get clock request) = record s {
    wrapper = (Wrapper.get flags adapters clock request s.wrapper).1;
  }
  serve s (upsert clock request) = record s {
    wrapper = (Wrapper.upsert flags adapters clock request s.wrapper).1;
  }
  serve s (delete clock request) = record s {
    wrapper = (Wrapper.delete flags adapters clock request s.wrapper).1;
  }
  serve s (forget insert audit context entity_id body) =
      (delete_memory insert audit context entity_id body s).1

  unfoldable pub serve_all : Store W → List Call → Store W
  unfolding serve
  serve_all s [] = s
  serve_all s (call ∷ calls) = serve_all (serve s call) calls

-- The cache is clean for the filter.
abbrev pub IsCleanStore : {W : Type 0} → Store W → Type 0
IsCleanStore s = IsClean s.wrapper.tombstone_filter s.wrapper.cache

-- One more tombstone hides entries with its triple alone.
IsShown-add :
    (f : TombstoneFilter) (t a id : String) (e : MemoryEntry)
    → triple_eq (e.tenant_id, e.application_id, e.entity_id) (t, a, id) ≡ false
    → IsShown f e
    → IsShown (Tombstone.add f t a id) e
IsShown-add f t a id e other shown =
    is_tombstoned-add f t a id e.tenant_id e.application_id e.entity_id ∙ rw (other, shown)

-- An entry filed under a key that the invalidation leaves has another triple.
other_triple :
    (t a id key : String) (e : MemoryEntry)
    → IsFiled key e
    → starts_with key (search_invalidation_prefix t a) ≡ false
    → triple_eq (e.tenant_id, e.application_id, e.entity_id) (t, a, id) ≡ false
other_triple t a id key e filed left = elim (Bool-cases (e.tenant_id == t)) [
  | inr different ↦ rw different
  | inl same ↦ elim (Bool-cases (e.application_id == a)) [
    | inr different ↦ rw (same, different)
    | inl same' ↦ absurd (
        cc (
          filed,
          left,
          ap (λ x. starts_with key (search_invalidation_prefix x e.application_id))
              ((eq_iff e.tenant_id t).0 same),
          ap (λ x. starts_with key (search_invalidation_prefix t x))
              ((eq_iff e.application_id a).0 same'),
        ))
  ]
]

All-IsShown :
    (f : TombstoneFilter) (t a id key : String) (entries : List MemoryEntry)
    → starts_with key (search_invalidation_prefix t a) ≡ false
    → All (λ e. IsShown f e × IsFiled key e) entries
    → All (λ e. IsShown (Tombstone.add f t a id) e × IsFiled key e) entries
All-IsShown f t a id key [] left clean = tt
All-IsShown f t a id key (e ∷ entries) left clean = (
  (IsShown-add f t a id e (other_triple t a id key e clean.0.1 left) clean.0.0, clean.0.1),
  All-IsShown f t a id key entries left clean.1,
)

-- Marking a memory as deleted and invalidating the searches of its tenant and application leaves a
-- clean cache.
invalidate-IsClean :
    (f : TombstoneFilter) (t a id : String) (cache : Option (TtlCache MemorySearchResult))
    → IsClean f cache
    → IsClean (Tombstone.add f t a id) (invalidate (search_invalidation_prefix t a) cache)
invalidate-IsClean f t a id none clean = tt
invalidate-IsClean f t a id (some cache) clean = λ key entry stored.
    elim (Bool-cases (starts_with key (search_invalidation_prefix t a))) [
      | inl gone ↦
          absurd (ground (arith, get-invalidate_prefix cache (search_invalidation_prefix t a) key))
      | inr left ↦ All-IsShown f t a id key entry.value.items left (
          clean key entry
            (ground (arith, get-invalidate_prefix cache (search_invalidation_prefix t a) key)))
    ]

-- A deletion whose audit event is written leaves a clean cache, whatever else happens.
pub delete_memory-IsClean :
    {W : Type 0} (insert audit : Outcome (Unit {0})) (context : TenantContext) (id : String)
    (body : MemoryDeleteBody) (s : Store W)
    → audit ≡ ok tt
    → IsCleanStore s
    → IsCleanStore (delete_memory insert audit context id body s).1
unfolding delete_memory
delete_memory-IsClean insert audit context id body s written clean =
    elim (Bool-cases (has_permission context.roles may_delete)) [
      | inr refused ↦ rw (refused, delete_memory) clean
      | inl permitted ↦ elim (Outcome-cases insert) [
        | inr (e, raised) ↦ rw (permitted, raised, delete_memory) clean
        | inl (u, inserted) ↦
            rw (permitted, inserted, written, delete_memory)
              (invalidate-IsClean s.wrapper.tombstone_filter context.tenant_id body.application_id
                id s.wrapper.cache clean)
      ]
    ]

module _ {W : Type 0} {A : Type 0} (operation : String) (clock : Clock) where
  counted-frame :
      (r : Outcome A × MemoryWrapper W)
      → ((counted operation clock r.0 r.1).1.tombstone_filter ≡ r.1.tombstone_filter)
        × ((counted operation clock r.0 r.1).1.cache ≡ r.1.cache)
  unfolding counted
  counted-frame (ok a, w) = (refl, refl)
  counted-frame (raise e, w) = (refl, refl)

-- A wrapper with the filter and the cache of another is as clean.
pub same-IsClean :
    {W : Type 0} (v w : MemoryWrapper W)
    → (v.tombstone_filter ≡ w.tombstone_filter) × (v.cache ≡ w.cache)
    → IsClean w.tombstone_filter w.cache
    → IsClean v.tombstone_filter v.cache
same-IsClean v w same clean = rw (same.0, same.1) clean

module _ {W : Type 0} (flags : String → String → String) (adapters : Dict (MemoryAdapter W)) where
  -- An operation of the active adapter, counted, leaves the filter and the cache alone.
  pub on_active-counted-frame :
      {A : Type 0} (name : String) (clock : Clock) (operation : MemoryAdapter W → W → Outcome A × W)
      (w : MemoryWrapper W)
      → let r = on_active flags adapters operation w in
        ((counted name clock r.0 r.1).1.tombstone_filter ≡ w.tombstone_filter)
        × ((counted name clock r.0 r.1).1.cache ≡ w.cache)
  on_active-counted-frame name clock operation w =
      let r = on_active flags adapters operation w in
      let counted_same = counted-frame name clock r in
      let same = on_active-frame flags adapters operation w in
      (counted_same.0 ∙ same.0, counted_same.1 ∙ same.1)

  pub get-frame :
      (clock : Clock) (request : MemoryGetRequest) (w : MemoryWrapper W)
      → ((Wrapper.get flags adapters clock request w).1.tombstone_filter ≡ w.tombstone_filter)
        × ((Wrapper.get flags adapters clock request w).1.cache ≡ w.cache)
  get-frame clock request w =
      elim (Bool-cases (
        is_tombstoned w.tombstone_filter request.tenant_id request.application_id
          request.entity_id)) [
            | inl hidden ↦
                unfold Wrapper.get in
                rw (hidden, Wrapper.get) (counted-frame "get" clock (ok none, w))
            | inr open_ ↦
                unfold Wrapper.get in
                rw (open_, Wrapper.get)
                  (on_active-counted-frame "get" clock (λ adapter. adapter.get request) w)
          ]

  module _ (scoped : IsScoped adapters) (digest : String → Dict Json → ℕ → String) where
    pub serve-IsClean :
        (s : Store W) (call : Call)
        → IsAudited call
        → IsCleanStore s
        → IsCleanStore (serve flags adapters digest s call)
    unfolding serve Wrapper.upsert Wrapper.delete
    serve-IsClean s (search clock request) h clean =
        let sound = search-IsSound flags adapters digest clock request s.wrapper scoped clean in
        rw (sound.0) (sound.1)
    serve-IsClean s (get clock request) h clean =
        same-IsClean (Wrapper.get flags adapters clock request s.wrapper).1 s.wrapper
          (get-frame clock request s.wrapper) clean
    serve-IsClean s (upsert clock request) h clean =
        same-IsClean (Wrapper.upsert flags adapters clock request s.wrapper).1 s.wrapper
          (on_active-counted-frame "upsert" clock (λ adapter. adapter.upsert request) s.wrapper)
          clean
    serve-IsClean s (delete clock request) h clean =
        same-IsClean (Wrapper.delete flags adapters clock request s.wrapper).1 s.wrapper
          (on_active-counted-frame "delete" clock (λ adapter. adapter.delete request) s.wrapper)
          clean
    serve-IsClean s (forget insert audit context id body) h clean =
        delete_memory-IsClean insert audit context id body s h clean
