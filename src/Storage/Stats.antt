-- ===== src/Storage/Stats.antt =====
-- internal/storage/stats.go: the smallest and the largest of an int64 column's values, kept while
-- values come in, merged, and written to the 16 bytes that pruning reads.
use dripsql.Base.{
  ℕ, if◌then◌else◌, ◌≤◌, ◌≡◌, arith, Bool, true, false, List, [], ◌∷◌, ◌++◌, All, All-append,
}
use dripsql.Base.Bytes.{le_bytes, zeros}
use dripsql.Base.Int64.{IsU64, signed_key, less64}
use dripsql.Codec.Sequence.{read-header}
use dripsql.Storage.Predicate.{stats64}
use dripsql.Storage.PruneLeaves.{Between}

pub record NumericStats : Type 0 where
  pub min : ℕ
  pub max : ℕ
  pub has_non_null : Bool

abbrev pub no_stats : NumericStats
no_stats = record { min = 0; max = 0; has_non_null = false }

unfoldable pub update : ℕ → NumericStats → NumericStats
update v s =
    if s.has_non_null
    then record {
      min = if less64 v s.min then v else s.min;
      max = if less64 s.max v then v else s.max;
      has_non_null = true;
    }
    else record { min = v; max = v; has_non_null = true }

-- One Update for every value.
unfoldable pub updated : List ℕ → NumericStats → NumericStats
updated [] s = s
updated (x ∷ xs) s = updated xs (update x s)

unfoldable pub merge : NumericStats → NumericStats → NumericStats
merge s other =
    if other.has_non_null
    then (if s.has_non_null
        then record {
          min = if less64 other.min s.min then other.min else s.min;
          max = if less64 s.max other.max then other.max else s.max;
          has_non_null = true;
        }
        else other)
    else s

unfoldable pub marshal_wire : NumericStats → List ℕ
marshal_wire s = if s.has_non_null then le_bytes 8 s.min ++ le_bytes 8 s.max else zeros 16

-- The bounds are 64-bit patterns.
IsStats : NumericStats → Type 0
IsStats s = IsU64 s.min × IsU64 s.max

-- They hold x between them.
Bounds : NumericStats → ℕ → Type 0
Bounds s x =
    (s.has_non_null ≡ true) × (signed_key s.min ≤ signed_key x) × (signed_key x ≤ signed_key s.max)

update-IsStats : (v : ℕ) (s : NumericStats) → IsU64 v → IsStats s → IsStats (update v s)
unfolding update IsStats less64
update-IsStats v s hv h = (ground arith, ground arith)

update-Bounds : (v x : ℕ) (s : NumericStats) → Bounds s x → Bounds (update v s) x
unfolding update Bounds less64
update-Bounds v x s h = (ground arith, ground arith, ground arith)

update_self : (v : ℕ) (s : NumericStats) → Bounds (update v s) v
unfolding update Bounds less64
update_self v s = (ground arith, ground arith, ground arith)

updated-IsStats :
    (xs : List ℕ) (s : NumericStats) → All IsU64 xs → IsStats s → IsStats (updated xs s)
unfolding updated
updated-IsStats [] s hx h = h
updated-IsStats (x ∷ xs) s (hx, hxs) h =
    updated-IsStats xs (update x s) hxs (update-IsStats x s hx h)

updated-keeps : (xs : List ℕ) (y : ℕ) (s : NumericStats) → Bounds s y → Bounds (updated xs s) y
unfolding updated
updated-keeps [] y s h = h
updated-keeps (x ∷ xs) y s h = updated-keeps xs y (update x s) (update-Bounds x y s h)

updated-Bounds : (xs : List ℕ) (s : NumericStats) → All (Bounds (updated xs s)) xs
unfolding updated
updated-Bounds [] s = tt
updated-Bounds (x ∷ xs) s =
    (updated-keeps xs x (update x s) (update_self x s), updated-Bounds xs (update x s))

merge-IsStats : (s o : NumericStats) → IsStats s → IsStats o → IsStats (merge s o)
unfolding merge IsStats less64
merge-IsStats s o hs ho = (ground arith, ground arith)

merge-left : (s o : NumericStats) (x : ℕ) → Bounds s x → Bounds (merge s o) x
unfolding merge Bounds less64
merge-left s o x h = (ground arith, ground arith, ground arith)

merge-right : (s o : NumericStats) (x : ℕ) → Bounds o x → Bounds (merge s o) x
unfolding merge Bounds less64
merge-right s o x h = (ground arith, ground arith, ground arith)

-- What is read from the 16 bytes are the bounds that were written.
wire-Between :
    (s : NumericStats) (x : ℕ)
    → IsStats s
    → IsU64 x
    → Bounds s x
    → Between (stats64 (marshal_wire s)) x
unfolding marshal_wire stats64 IsStats Bounds
wire-Between s x (hmin, hmax) hx (has, lo, hi) =
    let r = read-header s.min s.max hmin hmax in
    rw (has, r.0, r.1) (record { above = lo; below = hi; x_u64 = hx; low_u64 = hmin })

All-Between :
    (s : NumericStats) (xs : List ℕ)
    → IsStats s
    → All IsU64 xs
    → All (Bounds s) xs
    → All (Between (stats64 (marshal_wire s))) xs
All-Between s [] h hx hb = tt
All-Between s (x ∷ xs) h (hx, hxs) (hb, hbs) =
    (wire-Between s x h hx hb, All-Between s xs h hxs hbs)

weaken : {P Q : ℕ → Type 0} (xs : List ℕ) → ((x : ℕ) → P x → Q x) → All P xs → All Q xs
weaken [] f h = tt
weaken (x ∷ xs) f (hx, hxs) = (f x hx, weaken xs f hxs)

-- The statistics that Update collects of two pages, merged and written to the wire, are read back as
-- bounds that hold every value of either page between them, as signed numbers; a page may be empty.
pub stats64-marshal_wire :
    (xs ys : List ℕ)
    → All IsU64 xs
    → All IsU64 ys
    → All
        (Between (stats64 (marshal_wire (merge (updated xs no_stats) (updated ys no_stats)))))
        (xs ++ ys)
unfolding IsStats
stats64-marshal_wire xs ys hx hy =
    let s = updated xs no_stats in
    let o = updated ys no_stats in
    let hs = updated-IsStats xs no_stats hx (omega arith, omega arith) in
    let ho = updated-IsStats ys no_stats hy (omega arith, omega arith) in
    All-Between (merge s o) (xs ++ ys) (merge-IsStats s o hs ho) (All-append IsU64 xs ys hx hy) (
      All-append (Bounds (merge s o)) xs ys
        (weaken xs (λ x b. merge-left s o x b) (updated-Bounds xs no_stats))
        (weaken ys (λ y b. merge-right s o y b) (updated-Bounds ys no_stats)))
