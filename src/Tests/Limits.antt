-- ===== src/Tests/Limits.antt =====
-- LIMIT at concrete batches: internal/exec/limit.go.
use mathlib.Core.Option as Options
use dripsql.Base.{
  replicate, arith, ℕ, ◌≡◌, refl, true, false, some, none, List, [], ◌∷◌, take, drop,
}
use dripsql.Exec.Limit.{Batch}
use dripsql.Exec.Batches.{IsBatch, IsSelection}
use dripsql.Exec.Drained.{all_visible, drain, drain-limit}

abbrev whole : Batch ℕ
whole = record { rows = 1 ∷ 2 ∷ 3 ∷ []; sel = none }

abbrev filtered : Batch ℕ
filtered = record {
  rows = 4 ∷ 5 ∷ 6 ∷ 7 ∷ [];
  sel =
      some record {
        bits = true ∷ false ∷ true ∷ true ∷ replicate 60 false;
        rows = 4;
        all_set = false;
      };
}

abbrev source : List (Batch ℕ)
source = whole ∷ filtered ∷ []

filtered-IsBatch : IsBatch filtered
unfolding IsSelection
filtered-IsBatch = (refl, omega arith, λ e. absurd (ground (arith, e)))

drain-limit_example :
    Options.map all_visible (drain 3 record { n = some 3; offset = 2; seen = 0; sent = 0 } source)
    ≡ some (take 3 (drop 2 (all_visible source)))
unfolding IsSelection
drain-limit_example = drain-limit (some 3) 2 source (tt, (filtered-IsBatch, tt))
