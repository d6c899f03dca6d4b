-- ===== src/Context/Budget.antt =====
-- The loop over the memories found: what its greedy choice amounts to.
use totalrecall.Common.{
  ℕ, zero, suc, ltb, ap, ◌+◌, ◌*◌, ◌/◌, ◌≤◌, min, true, false, List, [], ◌∷◌, map, length, take,
  drop, ◌≡◌, refl, ◌∙◌, arith, if◌then◌else◌,
}
use totalrecall.Common.Int.{ℤ, pos, negsuc, pos_part, gtb_ℤ}
use totalrecall.Memory.Models.{MemoryEntry, MemorySearchResult}
use totalrecall.Common.Outcome.{Outcome, ok, raise}
use totalrecall.Context.{from_search, MemorySelection, select_entries, selected_memory, over_budget}

-- How many memories a budget pays for; a negative one pays for none.
abbrev pub affordable : ℤ → ℕ
affordable budget = pos_part budget / 60

over_budget-cases :
    (budget : ℤ) (k : ℕ)
    → gtb_ℤ (60 * k + 60) budget ≡ (if ltb k (affordable budget) then false else true)
over_budget-cases (pos n) k = ground arith
over_budget-cases (negsuc n) k = ground arith

-- Once the budget is spent, every entry is left out.
spent :
    (budget : ℤ) (entries : List MemoryEntry)
    → select_entries budget (60 * affordable budget) entries ≡ record {
      selected = [];
      exclusions = map (over_budget budget (60 * affordable budget)) entries;
      tokens = 60 * affordable budget;
    }
unfolding select_entries
spent budget [] = refl
spent budget (e ∷ entries) =
    let over : gtb_ℤ (60 * affordable budget + 60) budget ≡ true =
      over_budget-cases budget (affordable budget) ∙ ground arith in
    rw (over, spent budget entries)

-- The first `m` entries are selected, with that many tokens.
abbrev chosen : ℤ → ℕ → List MemoryEntry → ℕ → MemorySelection
chosen budget m entries tokens = record {
  selected = map selected_memory (take m entries);
  exclusions = map (over_budget budget (60 * affordable budget)) (drop m entries);
  tokens = tokens;
}

-- The choice after `k` memories, when the budget pays for `m` more.
greedy :
    (budget : ℤ) (m k : ℕ) (entries : List MemoryEntry)
    → k + m ≡ affordable budget
    → select_entries budget (60 * k) entries
      ≡ chosen budget m entries (60 * (k + min m (length entries)))
unfolding select_entries
greedy budget zero k entries left =
    let same : k ≡ affordable budget = omega (arith, left) in
    rw same (spent budget entries ∙ ap (chosen budget 0 entries) (omega arith))
greedy budget (suc m) k [] left = ap (chosen budget (suc m) []) (omega arith)
greedy budget (suc m) k (e ∷ entries) left =
    let under : gtb_ℤ (60 * k + 60) budget ≡ false = over_budget-cases budget k ∙ ground arith in
    let next : 60 * k + 60 ≡ 60 * suc k = omega arith in
    rw (under, next, greedy budget m (suc k) entries (omega arith))
      (ap (chosen budget (suc m) (e ∷ entries)) (omega arith))

-- The loop selects the first entries, as many as the budget pays for, leaves out the others, and
-- counts 60 tokens for each that it selects; a negative budget pays for none.
pub select_entries-affordable :
    (budget : ℤ) (entries : List MemoryEntry)
    → select_entries budget 0 entries ≡ record {
      selected = map selected_memory (take (affordable budget) entries);
      exclusions =
          map (over_budget budget (60 * affordable budget)) (drop (affordable budget) entries);
      tokens = 60 * min (affordable budget) (length entries);
    }
select_entries-affordable budget entries =
    greedy budget (affordable budget) 0 entries (omega arith)
    ∙ ap (chosen budget (affordable budget) entries) (omega arith)

pub from_search-affordable-le :
    (budget : ℤ) (r : Outcome MemorySearchResult) → (from_search budget r).tokens ≤ pos_part budget
from_search-affordable-le budget (raise e) = omega arith
from_search-affordable-le budget (ok r) =
    rw (select_entries-affordable budget r.items) (omega arith)
