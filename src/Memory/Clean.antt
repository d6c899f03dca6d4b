-- ===== src/Memory/Clean.antt =====
-- What a clean cache of searches is, and what keeps it clean.
use totalrecall.Common.{
  ℕ, ◌+◌, ◌≡◌, subst, Bool, true, false, not, Option, none, some, List, [], ◌∷◌, arith, ltb, All,
  All-filter_test, Bool-cases, Option-cases, inl, inr, if◌then◌else◌,
}
use totalrecall.Common.Text.{String, ◌==◌, eq_iff, starts_with}
use totalrecall.Common.Dict
use totalrecall.Common.Dict.{Dict, get-put, get-remove}
use mathlib.Core.Option.{some-injective}
use totalrecall.Common.Outcome.{ok}
use totalrecall.Cache
use totalrecall.Cache.{TtlCache, Entry, search_invalidation_prefix}
use totalrecall.Memory.Models.{MemoryEntry, MemorySearchRequest, MemorySearchResult, MemoryAdapter}
use totalrecall.Memory.Tombstone.{TombstoneFilter, is_tombstoned, filter_entries}
use totalrecall.Memory.Wrapper.{store_search, look_up}

abbrev pub IsShown : TombstoneFilter → MemoryEntry → Type 0
IsShown f e = is_tombstoned f e.tenant_id e.application_id e.entity_id ≡ false

-- An entry may be cached under keys of its own tenant and application alone.
abbrev pub IsFiled : String → MemoryEntry → Type 0
IsFiled key e = starts_with key (search_invalidation_prefix e.tenant_id e.application_id) ≡ true

-- No cached result holds a tombstoned entry, and each is filed under its own tenant and application.
abbrev pub IsClean : TombstoneFilter → Option (TtlCache MemorySearchResult) → Type 0
IsClean f none = Unit
IsClean f (some cache) =
    (key : String) (entry : Entry MemorySearchResult)
    → Dict.get cache.store key ≡ some entry
    → All (λ e. IsShown f e × IsFiled key e) entry.value.items

abbrev pub IsOwn : MemorySearchRequest → MemoryEntry → Type 0
IsOwn request e = (e.tenant_id ≡ request.tenant_id) × (e.application_id ≡ request.application_id)

-- The contract of an adapter: a search returns entries of the tenant and application it is for.
abbrev pub IsScoped : {W : Type 0} → Dict (MemoryAdapter W) → Type 0
IsScoped {W} adapters =
    (name : String) (adapter : MemoryAdapter W) (request : MemorySearchRequest) (w : W)
    (r : MemorySearchResult)
    → Dict.get adapters name ≡ some adapter
    → (adapter.search request w).0 ≡ ok r
    → All (IsOwn request) r.items

pub filter_entries-IsShown :
    (f : TombstoneFilter) (entries : List MemoryEntry) → All (IsShown f) (filter_entries f entries)
unfolding filter_entries
filter_entries-IsShown f entries =
    All-filter_test (IsShown f)
      (λ e. not (is_tombstoned f e.tenant_id e.application_id e.entity_id)) (λ e h. ground arith)
      entries

-- The stored entries, clean one by one.
abbrev pub IsCleanStore : TombstoneFilter → Dict (Entry MemorySearchResult) → Type 0
IsCleanStore f store =
    (key : String) (entry : Entry MemorySearchResult)
    → Dict.get store key ≡ some entry
    → All (λ e. IsShown f e × IsFiled key e) entry.value.items

-- A store that reads less is as clean.
pub fewer-IsClean :
    (f : TombstoneFilter) (store less : Dict (Entry MemorySearchResult)) (drop : String → Bool)
    → ((j : String) → Dict.get less j ≡ (if drop j then none else Dict.get store j))
    → IsCleanStore f store
    → IsCleanStore f less
fewer-IsClean f store less drop reads clean j entry h = elim (Bool-cases (drop j)) [
  | inl e ↦ absurd (ground (arith, reads j))
  | inr e ↦ clean j entry (ground (arith, reads j))
]

pub remove-IsClean :
    (f : TombstoneFilter) (store : Dict (Entry MemorySearchResult)) (key : String)
    → IsCleanStore f store
    → IsCleanStore f (Dict.remove store key)
remove-IsClean f store key =
    fewer-IsClean f store (Dict.remove store key) (λ j. key == j) (get-remove store key)

pub put-IsClean :
    (f : TombstoneFilter) (store : Dict (Entry MemorySearchResult)) (key : String)
    (new : Entry MemorySearchResult)
    → IsCleanStore f store
    → All (λ e. IsShown f e × IsFiled key e) new.value.items
    → IsCleanStore f (Dict.put store key new)
put-IsClean f store key new clean items j entry h = elim (Bool-cases (key == j)) [
  | inl e ↦
      subst (λ k. All (λ x. IsShown f x × IsFiled k x) entry.value.items) ((eq_iff key j).0 e)
        (subst (λ n. All (λ x. IsShown f x × IsFiled key x) n.value.items)
          (some-injective new entry (ground (arith, get-put store key j new))) items)
  | inr e ↦ clean j entry (ground (arith, get-put store key j new))
]

-- A lookup leaves a clean cache, and what it returns is clean.
pub look_up-IsClean :
    (f : TombstoneFilter) (now : ℕ) (key : String) (cache : Option (TtlCache MemorySearchResult))
    → IsClean f cache
    → IsClean f (look_up now key cache).1
look_up-IsClean f now key none clean = tt
look_up-IsClean f now key (some cache) clean = elim (Option-cases (Dict.get cache.store key)) [
  | inl e ↦ unfold Cache.get in rw (e, Cache.get) clean
  | inr (entry, e) ↦
      unfold Cache.get in
      rw (e, Cache.get)
        (elim (Bool-cases (ltb entry.expires_at now)) [
          | inl old ↦ rw old (remove-IsClean f cache.store key clean)
          | inr fresh ↦ rw fresh clean
        ])
]

pub get-hit :
    (now : ℕ) (cache : TtlCache MemorySearchResult) (key : String) (r : MemorySearchResult)
    → (Cache.get now cache key).0 ≡ some r
    → (e : Entry MemorySearchResult) × (Dict.get cache.store key ≡ some e) × (e.value ≡ r)
unfolding Cache.get
get-hit now cache key r h = elim (Option-cases (Dict.get cache.store key)) [
  | inl e ↦ absurd (ground arith)
  | inr (entry, e) ↦ (entry, e, ground arith)
]

pub look_up-IsShown :
    (f : TombstoneFilter) (now : ℕ) (key : String) (cache : Option (TtlCache MemorySearchResult))
    (r : MemorySearchResult)
    → IsClean f cache
    → (look_up now key cache).0 ≡ some r
    → All (λ e. IsShown f e × IsFiled key e) r.items
look_up-IsShown f now key none r clean h = cc h
look_up-IsShown f now key (some cache) r clean h =
    let (entry, stored, value) = get-hit now cache key r h in
    subst (λ v. All (λ e. IsShown f e × IsFiled key e) v.items) value (clean key entry stored)

-- A visible result for a request is clean under the request's key.
pub store_search-IsClean :
    (f : TombstoneFilter) (at : ℕ) (key : String) (shown : MemorySearchResult)
    (cache : Option (TtlCache MemorySearchResult))
    → All (λ e. IsShown f e × IsFiled key e) shown.items
    → IsClean f cache
    → IsClean f (store_search at key shown cache)
unfolding Cache.set
store_search-IsClean f at key shown none items clean = tt
store_search-IsClean f at key shown (some cache) items clean =
    put-IsClean f cache.store key (record { value = shown; expires_at = at + cache.ttl }) clean
      items

pub All-both {ℓ κ μ} :
    {A : Type ℓ} (P : A → Type κ) (Q : A → Type μ) (xs : List A)
    → All P xs
    → All Q xs
    → All (λ x. P x × Q x) xs
All-both P Q [] p q = tt
All-both P Q (x ∷ xs) p q = ((p.0, q.0), All-both P Q xs p.1 q.1)

pub All-map {ℓ κ μ} :
    {A : Type ℓ} (P : A → Type κ) (Q : A → Type μ)
    → ((x : A) → P x → Q x)
    → (xs : List A) → All P xs
    → All Q xs
All-map P Q f [] p = tt
All-map P Q f (x ∷ xs) p = (f x p.0, All-map P Q f xs p.1)
