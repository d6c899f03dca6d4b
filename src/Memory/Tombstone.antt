-- ===== src/Memory/Tombstone.antt =====
-- totalrecall/memory/tombstone.py: the set of deleted memories, kept as a list without repetitions.
use totalrecall.Common.{
  ℕ, Bool, false, ◌&&◌, ◌||◌, not, List, [], ◌∷◌, ◌≡◌, arith, length, filter, if◌then◌else◌,
}
use totalrecall.Common.Text.{String, ◌==◌, eq_iff}
use totalrecall.Memory.Models.{MemoryEntry}

-- (tenant_id, application_id, entity_id)
abbrev pub Triple : Type 0
Triple = String × String × String

abbrev pub triple_eq : Triple → Triple → Bool
triple_eq (t, a, e) (t', a', e') = t == t' && a == a' && e == e'

pub record TombstoneFilter : Type 0 where
  pub tombstones : List Triple

abbrev pub empty_filter : TombstoneFilter
empty_filter = record { tombstones = [] }

unfoldable pub mem_triple : Triple → List Triple → Bool
mem_triple t [] = false
mem_triple t (u ∷ us) = triple_eq t u || mem_triple t us

unfoldable pub add_triple : Triple → List Triple → List Triple
unfolding mem_triple
add_triple t us = if mem_triple t us then us else t ∷ us

unfoldable pub discard_triple : Triple → List Triple → List Triple
discard_triple t [] = []
discard_triple t (u ∷ us) = if triple_eq t u then discard_triple t us else u ∷ discard_triple t us

unfoldable pub update_triples : List Triple → List Triple → List Triple
unfolding add_triple
update_triples [] us = us
update_triples (t ∷ ts) us = update_triples ts (add_triple t us)

unfoldable pub add : TombstoneFilter → String → String → String → TombstoneFilter
unfolding add_triple
add f tenant_id application_id entity_id = record {
  tombstones = add_triple (tenant_id, application_id, entity_id) f.tombstones;
}

unfoldable pub remove : TombstoneFilter → String → String → String → TombstoneFilter
unfolding discard_triple
remove f tenant_id application_id entity_id = record {
  tombstones = discard_triple (tenant_id, application_id, entity_id) f.tombstones;
}

unfoldable pub is_tombstoned : TombstoneFilter → String → String → String → Bool
unfolding mem_triple
is_tombstoned f tenant_id application_id entity_id =
    mem_triple (tenant_id, application_id, entity_id) f.tombstones

unfoldable pub filter_entries : TombstoneFilter → List MemoryEntry → List MemoryEntry
unfolding is_tombstoned
filter_entries f entries =
    filter (λ e. not (is_tombstoned f e.tenant_id e.application_id e.entity_id)) entries

unfoldable pub load_bulk : TombstoneFilter → List Triple → TombstoneFilter
unfolding update_triples
load_bulk f tombstones = record { tombstones = update_triples tombstones f.tombstones }

unfoldable pub count : TombstoneFilter → ℕ
count f = length f.tombstones

-- After `add` exactly the new triple is tombstoned besides the old ones.
pub is_tombstoned-add :
    (f : TombstoneFilter) (t a e t' a' e' : String)
    → is_tombstoned (add f t a e) t' a' e'
      ≡ (triple_eq (t', a', e') (t, a, e) || is_tombstoned f t' a' e')
unfolding add is_tombstoned
is_tombstoned-add f t a e t' a' e' = ground (arith, eq_iff t' t, eq_iff a' a, eq_iff e' e)
