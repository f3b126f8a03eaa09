-- ===== src/Prelude/Sort.antt =====
-- Python's `sorted` on texts, by code points.
use Prim.Native.Nat.{Ordering}
use Prim.Native.String.{String, compare}
use mathlib.Core.Bool.{Bool, true, false}
use mathlib.Core.List.{List, [], ◌∷◌}
use bay.Prelude.Tests.{if◌then◌else◌}
use bay.Prelude.Assoc.{contains}

abbrev pub text_leb : String → String → Bool
text_leb s t = elim (compare s t) [ Ordering.gt ↦ false | _ ↦ true ]

-- An equal text goes behind those that are there.
unfoldable pub insert_sorted : String → List String → List String
insert_sorted s [] = s ∷ []
insert_sorted s (t ∷ l) = if text_leb s t then s ∷ t ∷ l else t ∷ insert_sorted s l

-- `sorted(l)`
unfoldable pub sort : List String → List String
unfolding insert_sorted
sort [] = []
sort (s ∷ l) = insert_sorted s (sort l)

-- `set(l)`, kept as a list with each text once
unfoldable pub dedup : List String → List String
unfolding contains
dedup [] = []
dedup (s ∷ l) = let rest = dedup l in if contains rest s then rest else s ∷ rest
