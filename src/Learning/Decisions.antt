-- ===== src/Learning/Decisions.antt =====
-- A discovery is decided once.
use totalrecall.Common.{
  Bool, false, not, Option, List, [], ◌∷◌, ◌≡◌, refl, sym, ap, ◌∙◌, map, is_empty, arith,
  if◌then◌else◌,
}
use mathlib.Core.List.{map-map}
use mathlib.Core.Path.{fun_ext}
use totalrecall.Common.Text.{String, contains}
use totalrecall.Learning.Table.{
  DiscoveryRow, open_row, approve_row, reject_row, update_rows, approve_discovery, reject_discovery,
  bulk_approve_discoveries,
}

-- No row is left for a second statement.
closed :
    (p q : DiscoveryRow → Bool) (f g : DiscoveryRow → DiscoveryRow) (rows : List DiscoveryRow)
    → ((r : DiscoveryRow) → q (if p r then f r else r) ≡ false)
    → update_rows q g (update_rows p f rows).1 ≡ ([], (update_rows p f rows).1)
closed p q f g [] h = refl
closed p q f g (r ∷ rows) h = let ih = closed p q f g rows h in rw (h r) (cc ih)

module _ (tenant_id id actor actor' now now' : String) (reason reason' : Option String)
    (rows : List DiscoveryRow) where
  abbrev pub approved : List DiscoveryRow
  approved = (approve_discovery tenant_id id actor now rows).1

  abbrev pub rejected : List DiscoveryRow
  rejected = (reject_discovery tenant_id id actor reason now rows).1

  -- A second decision on a discovery for the same tenant, whichever the first one was and whichever
  -- the second is, whoever takes them, reports that there is nothing to decide, and leaves the table
  -- as the first one left it.
  pub decision-once :
      (approve_discovery tenant_id id actor' now' approved ≡ (false, approved))
      × (reject_discovery tenant_id id actor' reason' now' approved ≡ (false, approved))
      × (approve_discovery tenant_id id actor' now' rejected ≡ (false, rejected))
      × (reject_discovery tenant_id id actor' reason' now' rejected ≡ (false, rejected))
  unfolding approve_discovery reject_discovery
  decision-once =
      let chosen = open_row tenant_id (id ∷ []) in
      let yes = approve_row actor now in
      let no = reject_row actor reason now in
      let yes' = approve_row actor' now' in
      let no' = reject_row actor' reason' now' in
      (
        ap (λ r. (not (is_empty r.0), r.1))
            (closed chosen chosen yes yes' rows (λ r. ground arith)),
        ap (λ r. (not (is_empty r.0), r.1)) (closed chosen chosen yes no' rows (λ r. ground arith)),
        ap (λ r. (not (is_empty r.0), r.1)) (closed chosen chosen no yes' rows (λ r. ground arith)),
        ap (λ r. (not (is_empty r.0), r.1)) (closed chosen chosen no no' rows (λ r. ground arith)),
      )

-- Approvals one by one.
unfoldable pub approve_each :
    String → List String → String → String → List DiscoveryRow → List DiscoveryRow
approve_each tenant_id [] actor now rows = rows
approve_each tenant_id (d ∷ ds) actor now rows =
    approve_each tenant_id ds actor now (approve_discovery tenant_id d actor now rows).1

abbrev settle : String → List String → String → String → DiscoveryRow → DiscoveryRow
settle tenant_id ds actor now r = if open_row tenant_id ds r then approve_row actor now r else r

settle-settle :
    (tenant_id d : String) (ds : List String) (actor now : String) (r : DiscoveryRow)
    → settle tenant_id ds actor now (settle tenant_id (d ∷ []) actor now r)
      ≡ settle tenant_id (d ∷ ds) actor now r
unfolding contains
settle-settle tenant_id d ds actor now r = ground arith

map_id_lem :
    (f : DiscoveryRow → DiscoveryRow) (rows : List DiscoveryRow)
    → ((r : DiscoveryRow) → f r ≡ r)
    → map f rows ≡ rows
map_id_lem f [] h = refl
map_id_lem f (r ∷ rows) h = rw (h r, map_id_lem f rows h)

approve_each-settle :
    (tenant_id : String) (ds : List String) (actor now : String) (rows : List DiscoveryRow)
    → approve_each tenant_id ds actor now rows ≡ map (settle tenant_id ds actor now) rows
unfolding approve_each approve_discovery
approve_each-settle tenant_id [] actor now rows =
    sym (map_id_lem (settle tenant_id [] actor now) rows (λ r. unfold contains in refl))
approve_each-settle tenant_id (d ∷ ds) actor now rows =
    approve_each-settle tenant_id ds actor now (map (settle tenant_id (d ∷ []) actor now) rows)
    ∙ map-map (settle tenant_id ds actor now) (settle tenant_id (d ∷ []) actor now) rows
    ∙ ap (λ f. map f rows) (fun_ext (λ r. settle-settle tenant_id d ds actor now r))

-- A bulk approval leaves the table as approving its identifiers one by one does.
pub bulk_approve_discoveries-each :
    (tenant_id : String) (ds : List String) (actor now : String) (rows : List DiscoveryRow)
    → (bulk_approve_discoveries tenant_id ds actor now rows).1
      ≡ approve_each tenant_id ds actor now rows
unfolding bulk_approve_discoveries
bulk_approve_discoveries-each tenant_id [] actor now rows = unfold approve_each in refl
bulk_approve_discoveries-each tenant_id (d ∷ ds) actor now rows =
    sym (approve_each-settle tenant_id (d ∷ ds) actor now rows)
