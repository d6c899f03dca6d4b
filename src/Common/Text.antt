-- ===== src/Common/Text.antt =====
-- Texts: the library's `String`, with its Boolean equality.
use Prim.Native.Nat.{ℕ, zero, suc, Ordering, ◌-◌}
use Prim.Native.Char.{code}
use Prim.Native.String.{compare}
use totalrecall.Common.Tests.{ltb, leb, if◌then◌else◌}
use totalrecall.Common.Tests
use mathlib.Core.Bool.{Bool, true, false, ◌||◌, ◌&&◌, not}
use mathlib.Core.List.{List, [], ◌∷◌}
pub use Prim.Native.String.{String, ◌++◌}
pub use text.Mathlib.Text.{◌==◌, starts_with}
pub use text.Mathlib.TextEquality.{eq_iff}
pub use text.Mathlib.TextPositions.{eq_refl, starts_with-append}
pub use text.Mathlib.TextLemmas.{append_assoc, append_cancel_left}

-- `sep.join(parts)`
unfoldable pub join : String → List String → String
join sep [] = ""
join sep (s ∷ []) = s
join sep (s ∷ t ∷ rest) = s ++ (sep ++ join sep (t ∷ rest))

-- Python's truth of a text: it is not empty.
unfoldable pub truthy : String → Bool
truthy String.[] = false
truthy (String.◌∷◌ c s) = true

-- `x in xs`
unfoldable pub contains : String → List String → Bool
contains p [] = false
contains p (x ∷ xs) = p == x || contains p xs

-- one step of `sorted`
unfoldable pub insert_sorted : String → List String → List String
insert_sorted x [] = x ∷ []
insert_sorted x (y ∷ ys) = elim (compare x y) [
  | Ordering.gt ↦ y ∷ insert_sorted x ys
  | _ ↦ x ∷ y ∷ ys
]

unfoldable pub sorted : List String → List String
unfolding insert_sorted
sorted [] = []
sorted (x ∷ xs) = insert_sorted x (sorted xs)

-- The characters that Python's `str.isspace` accepts.
unfoldable pub is_space : ℕ → Bool
is_space c =
    leb 9 c && leb c 13
    || leb 28 c && leb c 32
    || Tests.◌==◌ c 133
    || Tests.◌==◌ c 160
    || Tests.◌==◌ c 5760
    || leb 8192 c && leb c 8202
    || Tests.◌==◌ c 8232
    || Tests.◌==◌ c 8233
    || Tests.◌==◌ c 8239
    || Tests.◌==◌ c 8287
    || Tests.◌==◌ c 12288

-- `len(s.split())`: the runs of other characters; the flag tells whether a run is open.
unfoldable pub words_from : Bool → String → ℕ
unfolding is_space
words_from inside String.[] = 0
words_from inside (String.◌∷◌ c s) =
    let space = is_space (code c) in
    let rest = words_from (not space) s in if not space && not inside then suc rest else rest

unfoldable pub word_count : String → ℕ
unfolding words_from
word_count s = words_from false s

-- `needle in s`
unfoldable pub includes : String → String → Bool
includes needle String.[] = starts_with String.[] needle
includes needle (String.◌∷◌ c s) = starts_with (String.◌∷◌ c s) needle || includes needle s

-- `len(s)`, `s[:n]`, `s[n:]` and `s[-n:]`, which count characters
unfoldable pub char_count : String → ℕ
char_count String.[] = 0
char_count (String.◌∷◌ c s) = suc (char_count s)

unfoldable pub take_chars : ℕ → String → String
take_chars zero s = ""
take_chars (suc n) String.[] = ""
take_chars (suc n) (String.◌∷◌ c s) = String.◌∷◌ c (take_chars n s)

unfoldable pub drop_chars : ℕ → String → String
drop_chars zero s = s
drop_chars (suc n) String.[] = ""
drop_chars (suc n) (String.◌∷◌ c s) = drop_chars n s

unfoldable pub last_chars : ℕ → String → String
unfolding char_count drop_chars
last_chars n s = drop_chars (char_count s - n) s
