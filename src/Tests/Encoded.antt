-- ===== src/Tests/Encoded.antt =====
-- A comparison on a packed page of three numbers, the second of them null, and the statistics of two
-- pages.
use dripsql.Base.{
  ℕ, ◌≡◌, ◌++◌, refl, Bool, true, false, Option, some, List, [], ◌∷◌, arith, map, All,
}
use dripsql.Base.Bytes.{le_bytes}
use dripsql.Base.Int64.{sub64, signed_key}
use dripsql.Codec.Bitpack.{unpack}
use dripsql.Codec.Packed.{unpack-pack}
use dripsql.Storage.EncodedFor.{less, selected, eval_encoded_for, apply_validity}
use dripsql.Storage.Predicate.{stats64}
use dripsql.Storage.PruneLeaves.{Between}
use dripsql.Storage.Stats.{merge, updated, no_stats, marshal_wire, stats64-marshal_wire}
use dripsql.Storage.EncodedRows.{compares, InReach, Apart}
use dripsql.Storage.EncodedSound.{eval_encoded_for-compares}

abbrev numbers : List ℕ
numbers = 103 ∷ 100 ∷ 101 ∷ []

abbrev packed : List ℕ
packed = (unpack-pack 2 (3 ∷ 0 ∷ 1 ∷ []) (omega arith) (omega arith)).0

distances : map (λ x. sub64 x 100) numbers ≡ 3 ∷ 0 ∷ 1 ∷ []
unfolding sub64
distances = refl

packed-unpack : unpack 2 packed 3 ≡ some (map (λ x. sub64 x 100) numbers)
packed-unpack = rw distances (unpack-pack 2 (3 ∷ 0 ∷ 1 ∷ []) (omega arith) (omega arith)).3

near : Apart 100 102
unfolding signed_key
near = record {
  v_u64 = omega arith;
  base_u64 = omega arith;
  upward = omega arith;
  downward = omega arith;
}

in_reach : All (InReach 100 2) numbers
unfolding signed_key sub64
in_reach = (
  record { x_u64 = omega arith; above = omega arith; fits = omega arith },
  (
    record { x_u64 = omega arith; above = omega arith; fits = omega arith },
    (record { x_u64 = omega arith; above = omega arith; fits = omega arith }, tt),
  ),
)

abbrev validity : Option (List Bool)
validity = some (true ∷ false ∷ true ∷ [])

eval_encoded_for-compares_example :
    eval_encoded_for less 102 (le_bytes 8 100 ++ 2 ∷ packed) 3 validity
    ≡ selected (apply_validity validity (map (compares less 102) numbers))
eval_encoded_for-compares_example =
    eval_encoded_for-compares less 100 2 102 packed numbers validity (omega arith) (omega arith)
      near in_reach packed-unpack

abbrev first_page : List ℕ
first_page = 7 ∷ 18446744073709551611 ∷ []

abbrev second_page : List ℕ
second_page = 3 ∷ []

stats64-marshal_wire_example :
    All
      (Between (
        stats64
          (marshal_wire (merge (updated first_page no_stats) (updated second_page no_stats)))))
      (first_page ++ second_page)
stats64-marshal_wire_example =
    stats64-marshal_wire first_page second_page (omega arith, (omega arith, tt)) (omega arith, tt)
