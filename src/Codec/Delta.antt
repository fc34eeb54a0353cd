-- ===== src/Codec/Delta.antt =====
-- internal/storage/codec/delta_bitpack.go: a page is its first value, the smallest difference of
-- neighbours, a width, and the packed distances of the differences from the smallest.
use dripsql.Base.{
  ℕ, ltb, if◌then◌else◌, ◌+◌, ◌-◌, ◌%◌, Option, none, some, List, [], ◌∷◌, ◌++◌, ◌||◌, not, map,
  length, take, drop, nat_beq, get_or,
}
use dripsql.Base.Bytes.{le_bytes, from_le}
use dripsql.Base.Int64.{sub64, add64}
use dripsql.Storage.PageEntry.{and_then}
use dripsql.Codec.Bitpack.{packed_size, pack, unpack}
use dripsql.Codec.Kinds.{
  VecKind, Vec, is_for_packable, read_for_values, write_for_values, valid_decode_args, Decoding,
  decoded, refused, CodecError,
}
use dripsql.Codec.For.{IntFacts, EncodeContext, too_long, for_params, narrower, residuals_or}

-- vals[i+1] - vals[i]
unfoldable pub differences : ℕ → List ℕ → List ℕ
differences prev [] = []
differences prev (x ∷ xs) = sub64 x prev ∷ differences x xs

unfoldable pub deltas : List ℕ → List ℕ
deltas [] = []
deltas (x ∷ xs) = differences x xs

pub record DeltaParams : Type 0 where
  pub first : ℕ
  pub base : ℕ
  pub width : ℕ

unfoldable pub with_first : ℕ → ℕ × ℕ → Option DeltaParams
with_first first (base, width) = some (record { first = first; base = base; width = width })

-- deltaParams: the bounds of the differences are found by the same loop as those of values.
unfoldable pub delta_params : List ℕ → Option (ℕ × ℕ)
delta_params vals = for_params (deltas vals)

unfoldable pub delta_choice : Vec → Option IntFacts → Option DeltaParams
delta_choice v (some f) =
    if not f.delta_ok
    then none
    else and_then (narrower v.kind (f.delta_base, f.delta_width)) (with_first f.first)
delta_choice v none =
    and_then (and_then (delta_params (read_for_values v)) (narrower v.kind))
      (with_first (get_or (read_for_values v) 0 0))

unfoldable pub delta_fits : Vec → EncodeContext → Option DeltaParams
delta_fits v ctx =
    if not (is_for_packable v.kind)
    then none
    else if ltb (length v.words) 2
    then none
    else delta_choice v ctx.facts

unfoldable pub delta_payload : Vec → DeltaParams → Option (List ℕ)
delta_payload v p =
    and_then (pack p.width (map (λ x. sub64 x p.base) (deltas (read_for_values v))))
      (λ packed. some (le_bytes 8 p.first ++ (le_bytes 8 p.base ++ (p.width % 256) ∷ packed)))

unfoldable pub delta_encode : Vec → EncodeContext → Option (List ℕ)
delta_encode v ctx = and_then (delta_fits v ctx) (λ p.
    if too_long ctx (17 + packed_size (length v.words - 1) p.width)
    then none
    else delta_payload v p)

-- vals[i] = vals[i-1] + residuals[i-1] + base
unfoldable pub running : ℕ → ℕ → List ℕ → List ℕ
running base prev [] = []
running base prev (r ∷ rs) = let value = add64 (add64 prev r) base in value ∷ running base value rs

unfoldable pub delta_decode : List ℕ → VecKind → ℕ → ℕ → Decoding
delta_decode payload kind rows null_count =
    let first = from_le (take 8 payload) in
    let base = from_le (take 8 (drop 8 payload)) in
    let width = get_or payload 16 0 in
    if not (valid_decode_args rows null_count)
    then refused CodecError.bad_args
    else if not (is_for_packable kind)
    then refused CodecError.not_packable
    else if nat_beq rows 0
    then (if nat_beq (length payload) 0 then decoded [] else refused CodecError.trailing_payload)
    else if ltb rows 2
    then refused CodecError.too_few
    else if ltb (length payload) 17
    then refused CodecError.header_truncated
    else if ltb width 1 || ltb 64 width
    then refused CodecError.bad_width
    else if not (nat_beq (length payload) (17 + packed_size (rows - 1) width))
    then refused CodecError.bad_length
    else residuals_or (unpack width (drop 17 payload) (rows - 1))
        (λ rs. write_for_values kind 0 0 (first ∷ running base first rs))
