-- ===== src/RateLimit/Tenants.antt =====
-- The provider's buckets, one for each tenant.
use totalrecall.Common.{
  ℕ, ◌≡◌, refl, sym, subst, ◌∙◌, Bool-cases, Option, none, some, arith, Option-cases, inl, inr,
  if◌then◌else◌,
}
use totalrecall.Common.Text.{String, ◌==◌, eq_iff}
use totalrecall.Common.Dict
use totalrecall.Common.Dict.{Dict, get-put}
use totalrecall.RateLimit.{
  TenantBucket, RateLimitProvider, new_bucket, get_or_create_bucket, check_and_record, check,
}

-- The bucket that a request of the tenant would use.
abbrev pub bucket_of : RateLimitProvider → String → TenantBucket
bucket_of p tenant_id = (get_or_create_bucket p tenant_id).0

abbrev bucket_or : RateLimitProvider → String → Option TenantBucket → TenantBucket
bucket_or p tenant_id none = new_bucket (Dict.get_or p.policies tenant_id p.default)
bucket_or p tenant_id (some b) = b

bucket_of_lem :
    (p : RateLimitProvider) (tenant_id : String)
    → bucket_of p tenant_id ≡ bucket_or p tenant_id (Dict.get p.buckets tenant_id)
unfolding get_or_create_bucket
bucket_of_lem p tenant_id = ground arith

-- Creating a bucket is seen by its tenant alone, and changes no policy.
created :
    (p : RateLimitProvider) (tenant_id other : String)
    → bucket_or
        (get_or_create_bucket p tenant_id).1
        other
        (Dict.get (get_or_create_bucket p tenant_id).1.buckets other)
      ≡ bucket_or p other (Dict.get p.buckets other)
unfolding get_or_create_bucket
created p tenant_id other = elim (Option-cases (Dict.get p.buckets tenant_id)) [
  | inl e ↦
      rw (e, get_or_create_bucket)
        (simp get-put (elim (Bool-cases (tenant_id == other)) [
          | inl same ↦ rw same (subst (λ o. Agrees o) ((eq_iff tenant_id other).0 same) (rw e))
          | inr different ↦ rw different
        ]))
  | inr (b, e) ↦ rw (e, get_or_create_bucket)
]
  where
    Agrees : String → Type 0
    Agrees o =
        new_bucket (Dict.get_or p.policies tenant_id p.default)
        ≡ bucket_or p o (Dict.get p.buckets o)

-- A request uses the bucket of its own tenant alone: its result is that bucket's, the bucket becomes
-- the one that `check_and_record` leaves, and the bucket of every other tenant stays as it is.
pub check-bucket_of :
    (per_second now : ℕ) (p : RateLimitProvider) (tenant_id other : String)
    → ((check per_second now p tenant_id).0
        ≡ (check_and_record per_second now (bucket_of p tenant_id)).0)
      × (bucket_of (check per_second now p tenant_id).1 other ≡ (
          if tenant_id == other
          then (check_and_record per_second now (bucket_of p tenant_id)).1
          else bucket_of p other))
unfolding check
check-bucket_of per_second now p tenant_id other = (
  refl,
  bucket_of_lem (check per_second now p tenant_id).1 other
      ∙ rw get-put (elim (Bool-cases (tenant_id == other)) [
        | inl same ↦ rw same
        | inr different ↦ rw different (created p tenant_id other ∙ sym (bucket_of_lem p other))
      ]),
)
