-- ===== src/Codec/For.antt =====
-- internal/storage/codec/for_bitpack.go: frame of reference. A page is its smallest value, a width,
-- and the packed distances from that value. ErrSkip is `none`.
use dripsql.Base.{
  ℕ, leb, ltb, if◌then◌else◌, ◌+◌, ◌%◌, Bool, false, Option, none, some, List, [], ◌∷◌, ◌++◌, ◌||◌,
  not, map, length, take, drop, nat_beq, get_or,
}
use dripsql.Base.Bytes.{le_bytes, from_le}
use dripsql.Base.Int64.{sub64}
use dripsql.Storage.PageEntry.{and_then}
use dripsql.Codec.Bitpack.{packed_size, pack, unpack}
use dripsql.Codec.Kinds.{
  VecKind, Vec, is_for_packable, storage_bits, read_for_values, write_for_values, valid_decode_args,
  Decoding, decoded, refused, CodecError,
}
use dripsql.Codec.Spans.{span_loop, span_params, one_span}

-- What the page's analysis found, as far as these codecs read it.
pub record IntFacts : Type 0 where
  pub sequence_ok : Bool
  pub for_base : ℕ
  pub for_width : ℕ
  pub first : ℕ
  pub delta_base : ℕ
  pub delta_width : ℕ
  pub delta_ok : Bool

-- The analysis, where there is one, and the length that the payload must not exceed.
pub record EncodeContext : Type 0 where
  pub facts : Option IntFacts
  pub max_encoded_len : Option ℕ

unfoldable pub too_long : EncodeContext → ℕ → Bool
too_long ctx n = elim ctx.max_encoded_len [ none ↦ false | some most ↦ ltb most n ]

-- forParams; an empty page never reaches it.
unfoldable pub for_params : List ℕ → Option (ℕ × ℕ)
for_params [] = none
for_params (x ∷ xs) = span_params (span_loop xs (one_span x))

-- A width is of use below the storage width only.
unfoldable pub narrower : VecKind → ℕ × ℕ → Option (ℕ × ℕ)
narrower k (base, width) = if leb (storage_bits k) width then none else some (base, width)

-- From the analysis, or else from a look at the values.
unfoldable pub for_choice : Vec → Option IntFacts → Option (ℕ × ℕ)
for_choice v (some f) =
    if nat_beq f.for_width 0 then none else narrower v.kind (f.for_base, f.for_width)
for_choice v none = and_then (for_params (read_for_values v)) (narrower v.kind)

unfoldable pub for_fits : Vec → EncodeContext → Option (ℕ × ℕ)
for_fits v ctx =
    if not (is_for_packable v.kind)
    then none
    else if nat_beq (length v.words) 0
    then none
    else for_choice v ctx.facts

unfoldable pub for_payload : Vec → ℕ × ℕ → Option (List ℕ)
for_payload v (base, width) =
    and_then (pack width (map (λ x. sub64 x base) (read_for_values v)))
      (λ packed. some (le_bytes 8 base ++ (width % 256) ∷ packed))

unfoldable pub for_encode : Vec → EncodeContext → Option (List ℕ)
for_encode v ctx =
    and_then (for_fits v ctx)
      (λ p. if too_long ctx (9 + packed_size (length v.words) p.1) then none else for_payload v p)

unfoldable pub residuals_or : Option (List ℕ) → (List ℕ → Decoding) → Decoding
residuals_or none f = refused CodecError.bad_width
residuals_or (some rs) f = f rs

unfoldable pub for_decode : List ℕ → VecKind → ℕ → ℕ → Decoding
for_decode payload kind rows null_count =
    let base = from_le (take 8 payload) in
    let width = get_or payload 8 0 in
    if not (valid_decode_args rows null_count)
    then refused CodecError.bad_args
    else if not (is_for_packable kind)
    then refused CodecError.not_packable
    else if nat_beq rows 0
    then (if nat_beq (length payload) 0 then decoded [] else refused CodecError.trailing_payload)
    else if ltb (length payload) 9
    then refused CodecError.header_truncated
    else if ltb width 1 || ltb 64 width
    then refused CodecError.bad_width
    else if not (nat_beq (length payload) (9 + packed_size rows width))
    then refused CodecError.bad_length
    else residuals_or (unpack width (drop 9 payload) rows) (write_for_values kind base 0)
