-- ===== src/Memory/Forgotten.antt =====
-- A deleted memory stays out of sight, whatever calls follow.
use totalrecall.Common.{
  ℕ, ◌≡◌, refl, ap, ◌∙◌, Bool, true, false, ◌||◌, none, List, [], ◌∷◌, arith, All, Bool-cases, inl,
  inr,
}
use totalrecall.Common.Text.{String, eq_refl}
use totalrecall.Common.Dict.{Dict}
use totalrecall.Common.Json.{Json}
use totalrecall.Common.Outcome.{Outcome, ok, Outcome-cases}
use totalrecall.Auth.{TenantContext, has_permission, delete_memory as may_delete}
use totalrecall.Memory.Models.{MemoryEntry, MemorySearchRequest, MemorySearchResult, MemoryAdapter}
use totalrecall.Memory.Tombstone
use totalrecall.Memory.Tombstone.{TombstoneFilter, triple_eq, is_tombstoned, is_tombstoned-add}
use totalrecall.Memory.Wrapper
use totalrecall.Memory.Wrapper.{MemoryWrapper, Clock, counted, on_active}
use totalrecall.Memory.Deletion.{MemoryDeleteBody, MemoryDeleteResponse, Store, delete_memory}
use totalrecall.Memory.Clean.{IsShown, IsClean, IsScoped}
use totalrecall.Memory.Visibility.{search-IsSound}
use totalrecall.Memory.Sessions.{
  Call, search, get, upsert, delete, forget, IsAudited, serve, serve_all, IsCleanStore,
  delete_memory-IsClean, on_active-counted-frame, get-frame, serve-IsClean,
}

or-true : (b : Bool) → (b || true) ≡ true
or-true true = refl
or-true false = refl

-- A deletion removes no tombstone.
delete_memory-keeps :
    {W : Type 0} (insert audit : Outcome (Unit {0})) (context : TenantContext) (id : String)
    (body : MemoryDeleteBody) (s : Store W) (t a e : String)
    → is_tombstoned s.wrapper.tombstone_filter t a e ≡ true
    → is_tombstoned (delete_memory insert audit context id body s).1.wrapper.tombstone_filter t a e
      ≡ true
delete_memory-keeps insert audit context id body s t a e hidden =
    let added : is_tombstoned
          (Tombstone.add s.wrapper.tombstone_filter context.tenant_id body.application_id id) t a e
        ≡ true =
      is_tombstoned-add s.wrapper.tombstone_filter context.tenant_id body.application_id id t a e
      ∙ rw (hidden, or-true) in
    elim (Bool-cases (has_permission context.roles may_delete)) [
      | inr refused ↦ unfold delete_memory in rw (refused, delete_memory) hidden
      | inl permitted ↦ elim (Outcome-cases insert) [
        | inr (x, raised) ↦ unfold delete_memory in rw (permitted, raised, delete_memory) hidden
        | inl (u, inserted) ↦ elim (Outcome-cases audit) [
          | inr (x, raised) ↦
              unfold delete_memory in rw (permitted, inserted, raised, delete_memory) added
          | inl (v, written) ↦
              unfold delete_memory in rw (permitted, inserted, written, delete_memory) added
        ]
      ]
    ]

triple_eq_refl : (t a e : String) → triple_eq (t, a, e) (t, a, e) ≡ true
triple_eq_refl t a e = simp eq_refl

-- A deletion that returns has marked its triple.
delete_memory-marks :
    {W : Type 0} (insert audit : Outcome (Unit {0})) (context : TenantContext) (id : String)
    (body : MemoryDeleteBody) (s : Store W) (r : MemoryDeleteResponse)
    → (delete_memory insert audit context id body s).0 ≡ ok r
    → (is_tombstoned
          (delete_memory insert audit context id body s).1.wrapper.tombstone_filter
          context.tenant_id
          body.application_id
          id
        ≡ true)
      × (audit ≡ ok tt)
delete_memory-marks insert audit context id body s r returned =
    elim (Bool-cases (has_permission context.roles may_delete)) [
      | inr refused ↦ absurd (unfold delete_memory in (ground arith))
      | inl permitted ↦ elim (Outcome-cases insert) [
        | inr (x, raised) ↦ absurd (unfold delete_memory in (ground arith))
        | inl (u, inserted) ↦ elim (Outcome-cases audit) [
          | inr (x, raised) ↦ absurd (unfold delete_memory in (ground arith))
          | inl (v, written) ↦ (
            unfold delete_memory in
                rw (permitted, inserted, written, delete_memory)
                  (is_tombstoned-add s.wrapper.tombstone_filter context.tenant_id
                      body.application_id id context.tenant_id body.application_id id
                    ∙ rw (triple_eq_refl context.tenant_id body.application_id id)),
            written,
          )
        ]
      ]
    ]

module _ {W : Type 0} (flags : String → String → String) (adapters : Dict (MemoryAdapter W))
    (scoped : IsScoped adapters) (digest : String → Dict Json → ℕ → String) where
  serve-keeps :
      (s : Store W) (call : Call) (t a e : String)
      → IsCleanStore s
      → is_tombstoned s.wrapper.tombstone_filter t a e ≡ true
      → is_tombstoned (serve flags adapters digest s call).wrapper.tombstone_filter t a e ≡ true
  unfolding serve Wrapper.upsert Wrapper.delete
  serve-keeps s (search clock request) t a e clean hidden =
      rw ((search-IsSound flags adapters digest clock request s.wrapper scoped clean).0) hidden
  serve-keeps s (get clock request) t a e clean hidden =
      rw ((get-frame flags adapters clock request s.wrapper).0) hidden
  serve-keeps s (upsert clock request) t a e clean hidden =
      rw
        ((on_active-counted-frame flags adapters "upsert" clock (λ adapter. adapter.upsert request)
          s.wrapper).0)
        hidden
  serve-keeps s (delete clock request) t a e clean hidden =
      rw
        ((on_active-counted-frame flags adapters "delete" clock (λ adapter. adapter.delete request)
          s.wrapper).0)
        hidden
  serve-keeps s (forget insert audit context id body) t a e clean hidden =
      delete_memory-keeps insert audit context id body s t a e hidden

  serve_all-keeps :
      (s : Store W) (calls : List Call) (t a e : String)
      → All IsAudited calls
      → IsCleanStore s
      → is_tombstoned s.wrapper.tombstone_filter t a e ≡ true
      → IsCleanStore (serve_all flags adapters digest s calls)
        × (is_tombstoned (serve_all flags adapters digest s calls).wrapper.tombstone_filter t a e
            ≡ true)
  unfolding serve_all
  serve_all-keeps s [] t a e audited clean hidden = (clean, hidden)
  serve_all-keeps s (call ∷ calls) t a e audited clean hidden =
      serve_all-keeps (serve flags adapters digest s call) calls t a e audited.1
        (serve-IsClean flags adapters scoped digest s call audited.0 clean)
        (serve-keeps s call t a e clean hidden)

-- The entry that the triple names.
abbrev pub Names : String → String → String → MemoryEntry → Type 0
Names t a id e = (e.tenant_id ≡ t) × (e.application_id ≡ a) × (e.entity_id ≡ id)

not_named :
    (f : TombstoneFilter) (t a id : String) (entries : List MemoryEntry)
    → is_tombstoned f t a id ≡ true
    → All (IsShown f) entries
    → All (λ e. ¬ Names t a id e) entries
not_named f t a id [] hidden shown = tt
not_named f t a id (e ∷ entries) hidden shown = (
  λ named. cc (
    hidden,
    shown.0,
    ap (λ x. is_tombstoned f x e.application_id e.entity_id) named.0,
    ap (λ x. is_tombstoned f t x e.entity_id) named.1,
    ap (λ x. is_tombstoned f t a x) named.2,
  ),
  not_named f t a id entries hidden shown.1,
)

module _ {W : Type 0} (flags : String → String → String) (adapters : Dict (MemoryAdapter W))
    (digest : String → Dict Json → ℕ → String) where
  -- The wrapper after a deletion and further calls.
  abbrev pub wrapper_after :
      Outcome (Unit {0})
      → Outcome (Unit {0})
      → TenantContext
      → String
      → MemoryDeleteBody
      → Store W
      → List Call
      → MemoryWrapper W
  wrapper_after insert audit context id body s calls =
      (serve_all flags adapters digest (delete_memory insert audit context id body s).1
        calls).wrapper

  module _ (insert audit : Outcome (Unit {0})) (context : TenantContext) (id : String)
      (body : MemoryDeleteBody) (s : Store W) (response : MemoryDeleteResponse) (calls : List Call)
      (clock : Clock) (scoped : IsScoped adapters) (clean : IsCleanStore s)
      (returned : (delete_memory insert audit context id body s).0 ≡ ok response)
      (audited : All IsAudited calls) where
    abbrev later : MemoryWrapper W
    later = wrapper_after insert audit context id body s calls

    kept :
        IsClean later.tombstone_filter later.cache
        × (is_tombstoned later.tombstone_filter context.tenant_id body.application_id id ≡ true)
    kept =
        let (marked, written) =
          delete_memory-marks insert audit context id body s response returned in
        serve_all-keeps flags adapters scoped digest
          (delete_memory insert audit context id body s).1 calls context.tenant_id
          body.application_id id audited
          (delete_memory-IsClean insert audit context id body s written clean) marked

    -- Over adapters that answer a search with entries of its tenant and application, from a clean
    -- cache: once a deletion has returned, then after any further calls of the service whose audit
    -- events are written, no search that returns, for whatever tenant, shows an entry with the
    -- deleted triple.
    pub delete_memory-hides :
        (request : MemorySearchRequest) (shown : MemorySearchResult)
        → (Wrapper.search flags adapters digest clock request later).0 ≡ ok shown
        → All (λ e. ¬ Names context.tenant_id body.application_id id e) shown.items
    delete_memory-hides request shown h =
        not_named later.tombstone_filter context.tenant_id body.application_id id shown.items kept.1
          ((search-IsSound flags adapters digest clock request later scoped kept.0).2 shown h)

    -- Over adapters that answer a search with entries of its tenant and application, from a clean
    -- cache: once a deletion has returned, then after any further calls of the service whose audit
    -- events are written, a `get` of the deleted triple answers nothing, and does not raise.
    pub delete_memory-get :
        (Wrapper.get flags adapters clock
          (record {
            tenant_id = context.tenant_id;
            application_id = body.application_id;
            entity_id = id;
          })
          later).0
        ≡ ok none
    unfolding Wrapper.get counted
    delete_memory-get = rw (kept.1, Wrapper.get, counted)
