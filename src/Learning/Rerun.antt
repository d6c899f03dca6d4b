-- ===== src/Learning/Rerun.antt =====
-- A second run over the same files, with the hashes that the first one left.
use totalrecall.Common.{
  ℕ, suc, ◌≡◌, refl, sym, ap, subst, ◌∙◌, Bool, true, false, not, none, some, List, [], ◌∷◌, map,
  count, ◌⊎◌, All, arith, Bool-cases, inl, inr,
}
use totalrecall.Common.Text.{String, eq_iff, eq_refl, contains, truthy, ◌++◌, ◌==◌}
use totalrecall.Common.Dict
use totalrecall.Common.Dict.{Dict, get-put}
use totalrecall.Learning.Models.{
  LearningTriggerType, new, changed, unchanged, delta_state_eq, LearningScope, LearningRun,
}
use totalrecall.Learning.Run.{
  ScannedFile, ExtractedPattern, state_count, discovery, discover, patterns_of, run_learning,
  content_hash, stable_key,
}
use totalrecall.Learning.Table.{discovery_row, add_hash, row_hashes}

-- No two keys are the same.
abbrev pub IsDistinct : List String → Type 0
IsDistinct [] = Unit
IsDistinct (k ∷ ks) = (contains k ks ≡ false) × IsDistinct ks

-- The key that the row of a pattern gives: that of its stripped path and name.
abbrev pub stored_key : (String → String) → ExtractedPattern → String
stored_key strip p = strip p.file_path ++ ("::" ++ strip p.name)

abbrev pub stored_keys : (String → String) → List (String × ExtractedPattern) → List String
stored_keys strip ps = map (λ p. stored_key strip p.1) ps

-- The key of the pattern is the one that its row gives.
abbrev pub is_stable : (String → String) → String × ExtractedPattern → Bool
is_stable strip (language, p) = stable_key p == stored_key strip p

-- No row gives the key of a pattern, unless it is the one that its own row gives.
abbrev pub IsApart :
    (String → String) → List (String × ExtractedPattern) → String × ExtractedPattern → Type 0
IsApart strip ps p =
    (is_stable strip p ≡ true) ⊎ (contains (stable_key p.1) (stored_keys strip ps) ≡ false)

module _ (redact : String → String × List String) (md5 strip : String → String)
    (digests : (s : String) → (truthy (md5 s) ≡ true) × (strip (md5 s) ≡ md5 s)) where
  -- The row of a discovery gives its pattern's stripped key and its hash.
  add_hash-discovery :
      (run : LearningRun) (previous : Dict String) (id : String) (p : String × ExtractedPattern)
      (acc : Dict String)
      → let row = discovery_row run (discovery redact md5 strip previous id p) in
        add_hash row row.content_hash acc
        ≡ Dict.put acc (stored_key strip p.1) (content_hash redact md5 strip p.1)
  add_hash-discovery run previous id (language, p) acc =
      let digest = digests (p.pattern_type ++ ("::" ++ (redact p.source_excerpt).0)) in
      elim (Bool-cases (truthy (strip p.file_path))) [
        | inl e ↦ rw (digest.1, digest.0, e)
        | inr e ↦ rw (digest.1, digest.0, e)
      ]

  -- The hashes of the rows of a run.
  abbrev hashes :
      Dict String
      → LearningRun
      → Dict String
      → (ℕ → String)
      → ℕ
      → List (String × ExtractedPattern)
      → Dict String
  hashes acc run previous fresh n ps =
      row_hashes acc (map (discovery_row run) (discover redact md5 strip previous fresh n ps))

  get-hashes_other :
      (acc : Dict String) (run : LearningRun) (previous : Dict String) (fresh : ℕ → String) (n : ℕ)
      (ps : List (String × ExtractedPattern)) (k : String)
      → contains k (stored_keys strip ps) ≡ false
      → Dict.get (hashes acc run previous fresh n ps) k ≡ Dict.get acc k
  unfolding discover row_hashes contains
  get-hashes_other acc run previous fresh n [] k other = refl
  get-hashes_other acc run previous fresh n (p ∷ ps) k other =
      let key = stored_key strip p.1 in
      let acc' = Dict.put acc key (content_hash redact md5 strip p.1) in
      ap (λ a. Dict.get (hashes a run previous fresh (suc n) ps) k)
        (add_hash-discovery run previous (fresh n) p acc)
      ∙ get-hashes_other acc' run previous fresh (suc n) ps k (ground arith)
      ∙ ground
          (arith, get-put acc key k (content_hash redact md5 strip p.1), eq_iff key k, eq_iff k key)

  abbrev Known : Dict String → String × ExtractedPattern → Type 0
  Known d p = Dict.get d (stored_key strip p.1) ≡ some (content_hash redact md5 strip p.1)

  hashes-Known :
      (acc : Dict String) (run : LearningRun) (previous : Dict String) (fresh : ℕ → String) (n : ℕ)
      (ps : List (String × ExtractedPattern))
      → IsDistinct (stored_keys strip ps)
      → All (Known (hashes acc run previous fresh n ps)) ps
  unfolding discover row_hashes
  hashes-Known acc run previous fresh n [] distinct = tt
  hashes-Known acc run previous fresh n (p ∷ ps) distinct =
      let key = stored_key strip p.1 in
      let acc' = Dict.put acc key (content_hash redact md5 strip p.1) in
      subst (λ a. All (Known (hashes a run previous fresh (suc n) ps)) (p ∷ ps))
        (sym (add_hash-discovery run previous (fresh n) p acc))
        (
          get-hashes_other acc' run previous fresh (suc n) ps key distinct.0
              ∙ rw (get-put, eq_refl),
          hashes-Known acc' run previous fresh (suc n) ps distinct.1,
        )

  -- Stored hashes that know a pattern by its stripped key, and by no other.
  abbrev Stored : Dict String → String × ExtractedPattern → Type 0
  Stored d p = Known d p × ((is_stable strip p ≡ true) ⊎ (Dict.get d (stable_key p.1) ≡ none))

  hashes-Stored :
      (run : LearningRun) (previous : Dict String) (fresh : ℕ → String)
      (all : List (String × ExtractedPattern)) (ps : List (String × ExtractedPattern))
      → All (Known (hashes [] run previous fresh 0 all)) ps
      → All (IsApart strip all) ps
      → All (Stored (hashes [] run previous fresh 0 all)) ps
  unfolding Dict.get
  hashes-Stored run previous fresh all [] known apart = tt
  hashes-Stored run previous fresh all (p ∷ ps) known apart = (
    (
      known.0,
      elim apart.0 [
        | inl stable ↦ inl stable
        | inr other ↦ inr (get-hashes_other [] run previous fresh 0 all (stable_key p.1) other)
      ],
    ),
    hashes-Stored run previous fresh all ps known.1 apart.1,
  )

  discover-Stored :
      (d : Dict String) (fresh : ℕ → String) (n : ℕ) (ps : List (String × ExtractedPattern))
      → All (Stored d) ps
      → (state_count new (discover redact md5 strip d fresh n ps)
          ≡ count (λ p. not (is_stable strip p)) ps)
        × (state_count changed (discover redact md5 strip d fresh n ps) ≡ 0)
        × (state_count unchanged (discover redact md5 strip d fresh n ps)
            ≡ count (is_stable strip) ps)
  unfolding discover delta_state_eq
  discover-Stored d fresh n [] stored = (refl, refl, refl)
  discover-Stored d fresh n (p ∷ ps) stored =
      let (new_ones, none_changed, same_ones) = discover-Stored d fresh (suc n) ps stored.1 in
      elim (Bool-cases (is_stable strip p)) [
        | inl stable ↦
            let found : Dict.get d (stable_key p.1) ≡ some (content_hash redact md5 strip p.1) =
              ap (Dict.get d) ((eq_iff (stable_key p.1) (stored_key strip p.1)).0 stable)
              ∙ stored.0.0 in
            rw (found, stable, eq_refl, new_ones, none_changed, same_ones) (refl, refl, refl)
        | inr respaced ↦ elim stored.0.1 [
          | inl stable ↦ absurd (ground arith)
          | inr missing ↦
              rw (missing, respaced, new_ones, none_changed, same_ones) (refl, refl, refl)
        ]
      ]

-- A run over files, with the hashes of the rows that an earlier run over the same files left, finds
-- nothing changed. A pattern is unchanged if its path and its name give the same key after stripping,
-- and new if they do not. (A digest is not empty, and stripping leaves it as it is. The stripped keys
-- of the patterns are distinct, and a key that stripping changes is no pattern's stripped key.)
pub run_learning-again :
    (redact : String → String × List String) (md5 strip : String → String)
    (extract_patterns : String → String → String → List ExtractedPattern)
    (fresh fresh' : ℕ → String) (run_id run_id' tenant_id application_id : String)
    (scope : LearningScope) (previous_hashes : Dict String) (trigger : LearningTriggerType)
    (at at' : String) (files : List ScannedFile)
    → ((s : String) → (truthy (md5 s) ≡ true) × (strip (md5 s) ≡ md5 s))
    → IsDistinct (stored_keys strip (patterns_of extract_patterns files))
    → All (IsApart strip (patterns_of extract_patterns files)) (patterns_of extract_patterns files)
    → let run =
        (run_learning redact md5 strip extract_patterns fresh run_id at tenant_id application_id
          scope previous_hashes trigger at
          (some files)).run in
      let again =
        run_learning redact md5 strip extract_patterns fresh' run_id' at' tenant_id application_id
          scope
          (row_hashes [] (map (discovery_row run) run.discoveries))
          trigger
          at'
          (some files) in
      (again.discovered_count
        ≡ count (λ p. not (is_stable strip p)) (patterns_of extract_patterns files))
      × (again.changed_count ≡ 0)
      × (again.unchanged_count ≡ count (is_stable strip) (patterns_of extract_patterns files))
unfolding run_learning
run_learning-again redact md5 strip extract_patterns fresh fresh' run_id run_id' tenant_id
      application_id scope previous_hashes trigger at at' files digests distinct apart =
    let patterns = patterns_of extract_patterns files in
    let run =
      (run_learning redact md5 strip extract_patterns fresh run_id at tenant_id application_id scope
        previous_hashes trigger at (some files)).run in
    discover-Stored redact md5 strip digests
      (row_hashes [] (map (discovery_row run) run.discoveries)) fresh' 0 patterns
      (hashes-Stored redact md5 strip digests run previous_hashes fresh patterns patterns
        (hashes-Known redact md5 strip digests [] run previous_hashes fresh 0 patterns distinct)
        apart)
