-- ===== src/Memory/Rows.antt =====
-- The table of tombstones, whose key is the identifier of the memory alone.
use totalrecall.Common.{
  ◌&&◌, ◌||◌, not, List, [], ◌∷◌, ◌++◌, ◌≡◌, refl, ◌∙◌, arith, Bool-cases, inl, inr,
}
use totalrecall.Common.Text.{String, ◌==◌, eq_iff}
use totalrecall.Memory.Tombstone.{
  Triple, triple_eq, mem_triple, update_triples, add_triple, empty_filter, load_bulk, is_tombstoned,
}
use totalrecall.Memory.Deletion.{TombstoneRow, has_row, add, load_all, exists}

exists-append :
    (rows : List TombstoneRow) (row : TombstoneRow) (t a id : String)
    → exists (rows ++ row ∷ []) t a id
      ≡ (exists rows t a id || row.memory_id == id && row.tenant_id == t && row.application_id == a)
unfolding exists
exists-append [] row t a id = ground arith
exists-append (r ∷ rows) row t a id = ground (arith, exists-append rows row t a id)

-- A row that is added can be found, unless some row has its identifier: then, whoever owns that row,
-- the table stays as it is.
pub exists-add :
    (rows : List TombstoneRow) (row : TombstoneRow) (t a id : String)
    → exists (add rows row) t a id ≡ (
        exists rows t a id
        || not (has_row row.memory_id rows)
          && row.memory_id == id
          && row.tenant_id == t
          && row.application_id == a)
unfolding add
exists-add rows row t a id = elim (Bool-cases (has_row row.memory_id rows)) [
  | inl old ↦ rw old (ground arith)
  | inr new ↦ rw new (exists-append rows row t a id)
]

mem_triple-add_triple :
    (x u : Triple) (us : List Triple)
    → mem_triple x (add_triple u us) ≡ (triple_eq x u || mem_triple x us)
unfolding add_triple mem_triple
mem_triple-add_triple (t, a, e) (t', a', e') us =
    ground (arith, eq_iff t t', eq_iff a a', eq_iff e e')

mem_triple-load_all :
    (rows : List TombstoneRow) (us : List Triple) (t a id : String)
    → mem_triple (t, a, id) (update_triples (load_all rows) us)
      ≡ (exists rows t a id || mem_triple (t, a, id) us)
unfolding load_all exists update_triples
mem_triple-load_all [] us t a id = refl
mem_triple-load_all (r ∷ rows) us t a id =
    mem_triple-load_all rows (add_triple (r.tenant_id, r.application_id, r.memory_id) us) t a id
    ∙ rw (mem_triple-add_triple) (
        ground (
          arith,
          eq_iff t r.tenant_id,
          eq_iff r.tenant_id t,
          eq_iff a r.application_id,
          eq_iff r.application_id a,
          eq_iff id r.memory_id,
          eq_iff r.memory_id id,
        ))

-- A filter that is loaded from the table when the service starts hides exactly the memories that the
-- table has a row for.
pub load_bulk-load_all :
    (rows : List TombstoneRow) (t a id : String)
    → is_tombstoned (load_bulk empty_filter (load_all rows)) t a id ≡ exists rows t a id
unfolding load_bulk is_tombstoned
load_bulk-load_all rows t a id =
    mem_triple-load_all rows [] t a id ∙ unfold mem_triple in (ground arith)
