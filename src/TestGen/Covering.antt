-- ===== src/TestGen/Covering.antt =====
-- totalrecall/testgen/rag/ingest.py: the loop ends, and its chunks cover the text.
use totalrecall.Common.{ℕ, ◌≤◌, Option, some, List, [], ◌∷◌, ◌++◌, take, length, All, ◌≡◌}
use totalrecall.Common.Text.{String}

-- The words, of which every chunk but the last gives the first `step`.
abbrev pub rejoin : ℕ → List (List String) → List String
rejoin step [] = []
rejoin step (chunk ∷ []) = chunk
rejoin step (chunk ∷ next ∷ chunks) = take step chunk ++ rejoin step (next ∷ chunks)

-- The chunks from a word on: there are some, they join to the words from there, and none is too long.
abbrev pub Covers : ℕ → ℕ → List String → Option (List (List String)) → Type 0
Covers size step words result =
    (chunks : List (List String)) × (result ≡ some chunks)
    × (rejoin step chunks ≡ words)
    × All (λ chunk. length chunk ≤ size) chunks
