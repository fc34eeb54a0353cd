-- ===== src/Storage/EncodedFor.antt =====
-- internal/storage/predicate.go: comparisons on a page that is stored as frame of reference,
-- without decoding it. A selection mask is a list of Booleans; the page's payload and its
-- validity are what ReadPagePayload returned, and a page of nulls only never gets here.
use dripsql.Base.{
  ℕ, nat_beq, ltb, leb, if◌then◌else◌, ◌-◌, ◌^◌, Bool, true, false, ◌&&◌, ◌||◌, Option, none, some,
  List, [], ◌∷◌, map, length, take, drop, replicate, get_or,
}
use dripsql.Base.Bytes.{from_le}
use dripsql.Base.Int64.{sub64}
use dripsql.Codec.Bitpack.{unpack}

pub data Comparison : Type 0 where
  equal less greater : Comparison

pub data Evaluation : Type 0 where
  selected : List Bool → Evaluation
  header_truncated width_out_of_range : Evaluation

-- int64(x) < 0
unfoldable pub negative64 : ℕ → Bool
negative64 x = leb (2 ^ 63) x

unfoldable pub max_residual : ℕ → ℕ
max_residual width = if leb 64 width then 2 ^ 64 - 1 else 2 ^ width - 1

-- applyValidity
unfoldable pub both_set : List Bool → List Bool → List Bool
both_set [] mask = mask
both_set (v ∷ vs) [] = []
both_set (v ∷ vs) (m ∷ ms) = (m && v) ∷ both_set vs ms

unfoldable pub apply_validity : Option (List Bool) → List Bool → List Bool
apply_validity none mask = mask
apply_validity (some valid) mask = both_set valid mask

unfoldable pub unpacked : Option (List ℕ) → (ℕ → Bool) → Option (List Bool) → Evaluation
unpacked none test valid = width_out_of_range
unpacked (some rs) test valid = selected (apply_validity valid (map test rs))

-- evalEncodedEqFOR and both operators of evalEncodedFORRange, behind the header.
unfoldable pub for_mask : Comparison → ℕ → ℕ → List ℕ → ℕ → Option (List Bool) → Evaluation
for_mask equal t width packed rows valid =
    if negative64 t || (ltb width 64 && leb (2 ^ width) t)
    then selected (replicate rows false)
    else unpacked (unpack width packed rows) (λ r. nat_beq r t) valid
for_mask less t width packed rows valid =
    if negative64 t || nat_beq t 0
    then selected (replicate rows false)
    else if ltb (max_residual width) t
    then selected (apply_validity valid (replicate rows true))
    else unpacked (unpack width packed rows) (λ r. ltb r t) valid
for_mask greater t width packed rows valid =
    if negative64 t
    then selected (apply_validity valid (replicate rows true))
    else if leb (max_residual width) t
    then selected (replicate rows false)
    else unpacked (unpack width packed rows) (λ r. ltb t r) valid

unfoldable pub eval_encoded_for : Comparison → ℕ → List ℕ → ℕ → Option (List Bool) → Evaluation
eval_encoded_for op v payload rows valid =
    let base = from_le (take 8 payload) in
    let width = get_or payload 8 0 in
    if ltb (length payload) 9
    then header_truncated
    else if ltb width 1 || ltb 64 width
    then width_out_of_range
    else for_mask op (sub64 v base) width (drop 9 payload) rows valid
