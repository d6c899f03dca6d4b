-- ===== src/Learning/Counts.antt =====
-- The counts of a report.
use totalrecall.Common.{
  ℕ, suc, ◌+◌, ◌≡◌, refl, Option, none, some, List, [], ◌∷◌, length, arith, if◌then◌else◌,
}
use totalrecall.Common.Text.{String}
use totalrecall.Common.Dict
use totalrecall.Common.Dict.{Dict}
use totalrecall.Learning.Models.{
  LearningTriggerType, new, changed, unchanged, delta_state_eq, LearningScope,
}
use totalrecall.Learning.Run.{
  ScannedFile, ExtractedPattern, delta_state, state_count, discover, patterns_of, run_learning,
  content_hash, stable_key,
}

-- A state of a comparison is new, changed or unchanged.
one_state :
    (prev : Option String) (hash : String)
    → (if delta_state_eq (delta_state prev hash) new then 1 else 0)
        + (if delta_state_eq (delta_state prev hash) changed then 1 else 0)
        + (if delta_state_eq (delta_state prev hash) unchanged then 1 else 0)
      ≡ 1
unfolding delta_state_eq
one_state none hash = refl
one_state (some prev) hash = ground arith

module _ (redact : String → String × List String) (md5 : String → String)
    (strip : String → String) where
  state_count-discover :
      (previous_hashes : Dict String) (fresh : ℕ → String) (n : ℕ)
      (patterns : List (String × ExtractedPattern))
      → let found = discover redact md5 strip previous_hashes fresh n patterns in
        state_count new found + state_count changed found + state_count unchanged found
        ≡ length found
  unfolding discover
  state_count-discover previous_hashes fresh n [] = refl
  state_count-discover previous_hashes fresh n ((language, p) ∷ patterns) = ground (
    arith,
    one_state (Dict.get previous_hashes (stable_key p)) (content_hash redact md5 strip p),
    state_count-discover previous_hashes fresh (suc n) patterns,
  )

  -- The counts of a report of new, changed and unchanged discoveries add up to the number of its
  -- discoveries, when the path exists and when it does not.
  pub run_learning-counts :
      (extract_patterns : String → String → String → List ExtractedPattern) (fresh : ℕ → String)
      (run_id started_at tenant_id application_id : String) (scope : LearningScope)
      (previous_hashes : Dict String) (trigger : LearningTriggerType) (completed_at : String)
      (files : Option (List ScannedFile))
      → let report =
          run_learning redact md5 strip extract_patterns fresh run_id started_at tenant_id
            application_id scope previous_hashes trigger completed_at files in
        report.discovered_count + report.changed_count + report.unchanged_count
        ≡ length report.run.discoveries
  unfolding run_learning
  run_learning-counts extract_patterns fresh run_id started tenant application scope previous
        trigger completed none =
      refl
  run_learning-counts extract_patterns fresh run_id started tenant application scope previous
        trigger completed (some files) =
      state_count-discover previous fresh 0 (patterns_of extract_patterns files)
