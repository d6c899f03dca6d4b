-- ===== src/Memory/Histories.antt =====
-- What a search shows after any calls of a service whose cache was empty at first.
use totalrecall.Common.{ℕ, ◌≡◌, Option, none, some, List, [], ◌∷◌, All, arith}
use totalrecall.Common.Text.{String}
use totalrecall.Common.Dict
use totalrecall.Common.Dict.{Dict}
use totalrecall.Common.Json.{Json}
use totalrecall.Common.Outcome.{ok}
use totalrecall.Cache.{TtlCache}
use totalrecall.Memory.Models.{MemorySearchRequest, MemorySearchResult, MemoryAdapter}
use totalrecall.Memory.Tombstone.{TombstoneFilter}
use totalrecall.Memory.Wrapper
use totalrecall.Memory.Wrapper.{Clock}
use totalrecall.Memory.Deletion.{Store}
use totalrecall.Memory.Clean.{IsShown, IsClean, IsScoped}
use totalrecall.Memory.Visibility.{search-IsSound}
use totalrecall.Memory.Sessions.{Call, IsAudited, serve, serve_all, IsCleanStore, serve-IsClean}

-- No cache, or a cache that holds nothing.
abbrev pub IsEmpty : Option (TtlCache MemorySearchResult) → Type 0
IsEmpty none = Unit
IsEmpty (some cache) = cache.store ≡ []

IsEmpty-IsClean :
    (f : TombstoneFilter) (cache : Option (TtlCache MemorySearchResult))
    → IsEmpty cache
    → IsClean f cache
unfolding Dict.get
IsEmpty-IsClean f none empty = tt
IsEmpty-IsClean f (some cache) empty = λ key entry stored. absurd (ground arith)

module _ {W : Type 0} (flags : String → String → String) (adapters : Dict (MemoryAdapter W))
    (digest : String → Dict Json → ℕ → String) (scoped : IsScoped adapters) where
  serve_all-IsClean :
      (s : Store W) (calls : List Call)
      → All IsAudited calls
      → IsCleanStore s
      → IsCleanStore (serve_all flags adapters digest s calls)
  unfolding serve_all
  serve_all-IsClean s [] audited clean = clean
  serve_all-IsClean s (call ∷ calls) audited clean =
      serve_all-IsClean (serve flags adapters digest s call) calls audited.1
        (serve-IsClean flags adapters scoped digest s call audited.0 clean)

  -- Over adapters that answer a search with entries of its tenant and application, from a service with
  -- any tombstones whose cache is absent or empty: after any calls (searches that fill the cache,
  -- deletions and the rest) in which the audit events of deletions are written, a search that returns,
  -- answered by the cache or by an adapter, shows no entry that is tombstoned by then.
  pub search-serve_all :
      (s : Store W) (calls : List Call) (clock : Clock) (request : MemorySearchRequest)
      (shown : MemorySearchResult)
      → IsEmpty s.wrapper.cache
      → All IsAudited calls
      → (Wrapper.search flags adapters digest clock request
          (serve_all flags adapters digest s calls).wrapper).0
        ≡ ok shown
      → All (IsShown (serve_all flags adapters digest s calls).wrapper.tombstone_filter) shown.items
  search-serve_all s calls clock request shown empty audited returned =
      (search-IsSound flags adapters digest clock request
          (serve_all flags adapters digest s calls).wrapper scoped
          (serve_all-IsClean s calls audited
            (IsEmpty-IsClean s.wrapper.tombstone_filter s.wrapper.cache empty))).2
        shown returned
