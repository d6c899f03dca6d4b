-- ===== src/TestGen/Chunks.antt =====
-- totalrecall/testgen/rag/ingest.py: the chunks of a text, each a number of words that overlaps the one
-- before. `split` gives the words of a text. The loop runs on fuel; the number of words is enough.
use totalrecall.Common.{
  ℕ, zero, suc, ◌+◌, ◌-◌, min, Option, none, some, List, [], ◌∷◌, map, take, drop, length, ltb,
  ◌==◌, if◌then◌else◌,
}
use totalrecall.Common.Text.{String, join}

abbrev pub chunk_size : ℕ
chunk_size = 512

abbrev pub overlap : ℕ
overlap = 64

-- The chunk in front of the others, if the fuel was enough for those.
abbrev pub add_chunk : List String → Option (List (List String)) → Option (List (List String))
add_chunk chunk none = none
add_chunk chunk (some chunks) = some (chunk ∷ chunks)

-- The loop from the word `start`: chunks of `size` words, of which the next begins `step` words later.
unfoldable pub chunks_from : ℕ → ℕ → ℕ → List String → ℕ → Option (List (List String))
chunks_from zero size step words start = if ltb start (length words) then none else some []
chunks_from (suc fuel) size step words start =
    let end = min (start + size) (length words) in
    let chunk = take (end - start) (drop start words) in
    let rest = chunks_from fuel size step words (start + step) in
    if ltb start (length words)
    then (if end == length words then some (chunk ∷ []) else add_chunk chunk rest)
    else some []

-- The words of the chunks.
unfoldable pub chunk_words : List String → Option (List (List String))
unfolding chunks_from
chunk_words words = chunks_from (length words) chunk_size (chunk_size - overlap) words 0

unfoldable pub chunk_text : (String → List String) → String → Option (List String)
unfolding chunk_words
chunk_text split text = elim (chunk_words (split text)) [
  | none ↦ none
  | some chunks ↦ some (map (join " ") chunks)
]
