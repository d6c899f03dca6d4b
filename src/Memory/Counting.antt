-- ===== src/Memory/Counting.antt =====
-- What the counters of the wrapper say of the calls that it served.
use totalrecall.Common.{
  ℕ, ◌+◌, ◌≡◌, ◌∙◌, Bool, true, false, none, List, [], ◌∷◌, arith, count, Bool-cases, Option-cases,
  inl, inr, if◌then◌else◌,
}
use totalrecall.Common.Text.{String, ◌==◌}
use totalrecall.Common.Dict.{Dict}
use totalrecall.Common.Json.{Json}
use totalrecall.Common.Outcome.{Outcome, ok, raise, Outcome-cases}
use totalrecall.Memory.Models.{
  MemorySearchRequest, MemorySearchResult, MemoryGetRequest, MemoryAdapter,
}
use totalrecall.Memory.Metrics.{
  OperationMetrics, record_success, record_failure, total, get_or-bump,
}
use totalrecall.Memory.Tombstone.{is_tombstoned}
use totalrecall.Memory.Wrapper
use totalrecall.Memory.Wrapper.{
  MemoryWrapper, Clock, counted, on_active, shadow_read, search_adapter, look_up, search_key,
}
use totalrecall.Memory.Deletion.{MemoryDeleteBody, Store, delete_memory}
use totalrecall.Auth.{TenantContext}
use totalrecall.Memory.Sessions.{Call, search, get, upsert, delete, forget, serve, serve_all}

-- The operation under which a call is counted; the route of deletions is not.
abbrev pub counts_as : String → Call → Bool
counts_as operation (search clock request) = "search" == operation
counts_as operation (get clock request) = "get" == operation
counts_as operation (upsert clock request) = "upsert" == operation
counts_as operation (delete clock request) = "delete" == operation
counts_as operation (forget insert audit context entity_id body) = false

record_success-total :
    (m : OperationMetrics) (name : String) (latency : ℕ) (hit : Bool) (now operation : String)
    → total (record_success m name latency hit now) operation
      ≡ total m operation + (if name == operation then 1 else 0)
unfolding record_success
record_success-total m name latency hit now operation = get_or-bump m.totals name operation 1

module _ {W : Type 0} where
  counted-total :
      {A : Type 0} (name operation : String) (clock : Clock) (r : Outcome A) (w : MemoryWrapper W)
      → total (counted name clock r w).1.metrics operation
        ≡ total w.metrics operation + (if name == operation then 1 else 0)
  unfolding counted record_success record_failure
  counted-total name operation clock (ok a) w = get_or-bump w.metrics.totals name operation 1
  counted-total name operation clock (raise e) w = get_or-bump w.metrics.totals name operation 1

  delete_memory-metrics :
      (insert audit : Outcome (Unit {0})) (context : TenantContext) (id : String)
      (body : MemoryDeleteBody) (s : Store W)
      → (delete_memory insert audit context id body s).1.wrapper.metrics ≡ s.wrapper.metrics
  unfolding delete_memory
  delete_memory-metrics insert audit context id body s = ground arith

  module _ (flags : String → String → String) (adapters : Dict (MemoryAdapter W)) where
    on_active-metrics :
        {A : Type 0} (run : MemoryAdapter W → W → Outcome A × W) (w : MemoryWrapper W)
        → (on_active flags adapters run w).1.metrics ≡ w.metrics
    unfolding on_active
    on_active-metrics run w = ground arith

    shadow_read-metrics :
        (request : MemorySearchRequest) (primary : MemorySearchResult) (w : MemoryWrapper W)
        → (shadow_read flags adapters request primary w).metrics ≡ w.metrics
    unfolding shadow_read
    shadow_read-metrics request primary w = ground arith

    search_adapter-metrics :
        (clock : Clock) (key : String) (request : MemorySearchRequest) (w : MemoryWrapper W)
        → (search_adapter flags adapters clock key request w).1.metrics ≡ w.metrics
    search_adapter-metrics clock key request w =
        let called = on_active flags adapters (λ adapter. adapter.search request) w in
        elim (Outcome-cases called.0) [
          | inr (e, raised) ↦
              unfold search_adapter in
              rw (raised, search_adapter) (on_active-metrics (λ adapter. adapter.search request) w)
          | inl (r, returned) ↦
              unfold search_adapter in
              rw (returned, search_adapter)
                (shadow_read-metrics request r called.1
                  ∙ on_active-metrics (λ adapter. adapter.search request) w)
        ]

    on_active-counted-total :
        {A : Type 0} (name operation : String) (clock : Clock)
        (run : MemoryAdapter W → W → Outcome A × W) (w : MemoryWrapper W)
        → total
            (counted name clock
              (on_active flags adapters run w).0
              (on_active flags adapters run w).1).1.metrics
            operation
          ≡ total w.metrics operation + (if name == operation then 1 else 0)
    on_active-counted-total name operation clock run w =
        counted-total name operation clock (on_active flags adapters run w).0
          (on_active flags adapters run w).1
        ∙ rw (on_active-metrics run w)

    get-total :
        (clock : Clock) (request : MemoryGetRequest) (w : MemoryWrapper W) (operation : String)
        → total (Wrapper.get flags adapters clock request w).1.metrics operation
          ≡ total w.metrics operation + (if "get" == operation then 1 else 0)
    get-total clock request w operation =
        elim (Bool-cases (
          is_tombstoned w.tombstone_filter request.tenant_id request.application_id
            request.entity_id)) [
              | inl hidden ↦
                  unfold Wrapper.get in
                  rw (hidden, Wrapper.get) (counted-total "get" operation clock (ok none) w)
              | inr shown ↦
                  unfold Wrapper.get in
                  rw (shown, Wrapper.get)
                    (on_active-counted-total "get" operation clock (λ adapter. adapter.get request)
                      w)
            ]

    module _ (digest : String → Dict Json → ℕ → String) where
      search-total :
          (clock : Clock) (request : MemorySearchRequest) (w : MemoryWrapper W) (operation : String)
          → total (Wrapper.search flags adapters digest clock request w).1.metrics operation
            ≡ total w.metrics operation + (if "search" == operation then 1 else 0)
      search-total clock request w operation =
          let key = search_key flags adapters digest request in
          let looked = look_up clock.lookup_at key w.cache in
          elim (Option-cases looked.0) [
            | inr (r, hit) ↦
                unfold Wrapper.search in
                rw (hit, Wrapper.search)
                  (record_success-total w.metrics "search" clock.latency true clock.now operation)
            | inl miss ↦
                let w' = record w { cache = looked.1 } in
                let asked = search_adapter flags adapters clock key request w' in
                unfold Wrapper.search in
                rw (miss, Wrapper.search)
                  (counted-total "search" operation clock asked.0 asked.1
                    ∙ rw (search_adapter-metrics clock key request w'))
          ]

      serve-total :
          (s : Store W) (call : Call) (operation : String)
          → total (serve flags adapters digest s call).wrapper.metrics operation
            ≡ total s.wrapper.metrics operation + (if counts_as operation call then 1 else 0)
      unfolding serve Wrapper.upsert Wrapper.delete
      serve-total s (search clock request) operation =
          search-total clock request s.wrapper operation
      serve-total s (get clock request) operation = get-total clock request s.wrapper operation
      serve-total s (upsert clock request) operation =
          on_active-counted-total "upsert" operation clock (λ adapter. adapter.upsert request)
            s.wrapper
      serve-total s (delete clock request) operation =
          on_active-counted-total "delete" operation clock (λ adapter. adapter.delete request)
            s.wrapper
      serve-total s (forget insert audit context id body) operation =
          rw (delete_memory-metrics insert audit context id body s) (omega arith)

-- After any calls of the service the total of an operation has grown by the number of its calls:
-- each is counted once, whether the cache or an adapter answered it, it was hidden by a tombstone, or
-- it raised.
pub serve_all-total :
    {W : Type 0} (flags : String → String → String) (adapters : Dict (MemoryAdapter W))
    (digest : String → Dict Json → ℕ → String) (s : Store W) (calls : List Call)
    (operation : String)
    → total (serve_all flags adapters digest s calls).wrapper.metrics operation
      ≡ total s.wrapper.metrics operation + count (counts_as operation) calls
unfolding serve_all
serve_all-total flags adapters digest s [] operation = omega arith
serve_all-total flags adapters digest s (call ∷ calls) operation =
    serve_all-total flags adapters digest (serve flags adapters digest s call) calls operation
    ∙ rw (serve-total flags adapters digest s call operation) (ground arith)
