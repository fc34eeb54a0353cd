-- ===== src/Codec/Kinds.antt =====
-- internal/vector/veckind.go and internal/storage/codec: the physical kinds of values, and integer
-- values between their storage width and 64 bits.
use dripsql.Base.{
  ℕ, suc, leb, if◌then◌else◌, ◌+◌, ◌-◌, ◌%◌, ◌^◌, ◌<◌, ◌≡◌, refl, arith, Bool, true, false, List,
  [], ◌∷◌, map, ◌&&◌, ltb, All,
}
use dripsql.Base.Int64.{IsU64, add64, signed_key}

pub data VecKind : Type 0 where
  vec_invalid vec_bool vec_int16 vec_int32 vec_int64 vec_float32 vec_float64 vec_decimal64 : VecKind
  vec_text vec_bytes vec_uuid vec_timestamp vec_time vec_date vec_json vec_enum32 : VecKind
  vec_other : ℕ → VecKind

pub data Width : Type 0 where
  bytes : ℕ → Width
  var_bytes width_bool : Width

unfoldable pub fixed_width : VecKind → Width
fixed_width vec_bool = width_bool
fixed_width vec_int16 = bytes 2
fixed_width vec_int32 = bytes 4
fixed_width vec_date = bytes 4
fixed_width vec_enum32 = bytes 4
fixed_width vec_int64 = bytes 8
fixed_width vec_float64 = bytes 8
fixed_width vec_decimal64 = bytes 8
fixed_width vec_timestamp = bytes 8
fixed_width vec_time = bytes 8
fixed_width vec_float32 = bytes 4
fixed_width vec_uuid = bytes 16
fixed_width vec_text = var_bytes
fixed_width vec_bytes = var_bytes
fixed_width vec_json = var_bytes
fixed_width vec_invalid = bytes 0
fixed_width (vec_other u) = bytes 0

unfoldable pub is_for_packable : VecKind → Bool
is_for_packable vec_int16 = true
is_for_packable vec_int32 = true
is_for_packable vec_int64 = true
is_for_packable vec_decimal64 = true
is_for_packable vec_timestamp = true
is_for_packable vec_time = true
is_for_packable vec_date = true
is_for_packable vec_enum32 = true
is_for_packable _ = false

-- int(v.Kind.FixedWidth()) * 8, on the kinds that are packed.
unfoldable pub storage_bits : VecKind → ℕ
storage_bits vec_int16 = 16
storage_bits vec_int32 = 32
storage_bits vec_date = 32
storage_bits vec_enum32 = 32
storage_bits _ = 64

-- A vector of integers without nulls: its kind, and the bit patterns that it stores.
pub record Vec : Type 0 where
  pub kind : VecKind
  pub words : List ℕ

-- int64(x) of an intN, from the pattern of N bits.
unfoldable pub sign_extend : ℕ → ℕ → ℕ
sign_extend bits x = if ltb x (2 ^ (bits - 1)) then x else x + (2 ^ 64 - 2 ^ bits)

unfoldable pub widen : VecKind → ℕ → ℕ
widen vec_int16 x = sign_extend 16 x
widen vec_int32 x = sign_extend 32 x
widen vec_date x = sign_extend 32 x
widen _ x = x

unfoldable pub read_for_values : Vec → List ℕ
read_for_values v = map (widen v.kind) v.words

-- The test on a value that is written back.
unfoldable pub in_range : VecKind → ℕ → Bool
in_range vec_int16 x =
    leb (2 ^ 63 - 2 ^ 15) (signed_key x) && leb (signed_key x) (2 ^ 63 + 2 ^ 15 - 1)
in_range vec_int32 x =
    leb (2 ^ 63 - 2 ^ 31) (signed_key x) && leb (signed_key x) (2 ^ 63 + 2 ^ 31 - 1)
in_range vec_date x =
    leb (2 ^ 63 - 2 ^ 31) (signed_key x) && leb (signed_key x) (2 ^ 63 + 2 ^ 31 - 1)
in_range vec_enum32 x = leb (2 ^ 63) (signed_key x) && leb (signed_key x) (2 ^ 63 + 2 ^ 32 - 1)
in_range _ x = true

unfoldable pub narrow : VecKind → ℕ → ℕ
narrow vec_int16 x = x % 2 ^ 16
narrow vec_int32 x = x % 2 ^ 32
narrow vec_date x = x % 2 ^ 32
narrow vec_enum32 x = x % 2 ^ 32
narrow _ x = x

pub data CodecError : Type 0 where
  bad_args not_packable trailing_payload header_truncated bad_width bad_length too_few : CodecError
  overflows : ℕ → ℕ → CodecError

pub data Decoding : Type 0 where
  decoded : List ℕ → Decoding
  refused : CodecError → Decoding

unfoldable pub cons_word : ℕ → Decoding → Decoding
cons_word w (decoded ws) = decoded (w ∷ ws)
cons_word w (refused e) = refused e

-- writeFORValues from row i on.
unfoldable pub write_for_values : VecKind → ℕ → ℕ → List ℕ → Decoding
write_for_values k base i [] = decoded []
write_for_values k base i (r ∷ rs) =
    let rest = write_for_values k base (suc i) rs in
    let value = add64 base r in
    if in_range k value then cons_word (narrow k value) rest else refused (overflows value i)

-- validateDecodeArgs on arguments that are not negative.
unfoldable pub valid_decode_args : ℕ → ℕ → Bool
valid_decode_args rows null_count = leb rows (2 ^ 31 - 1) && leb null_count rows

-- The patterns fit the kind's storage.
unfoldable pub IsStored : Vec → Type 0
IsStored v = All (λ x. x < 2 ^ storage_bits v.kind) v.words

abbrev pub Stored : VecKind → ℕ → Type 0
Stored k x = x < 2 ^ storage_bits k

-- A value that was widened is in range, and narrowing it gives it back.
pub widen-narrow :
    (k : VecKind) (x : ℕ)
    → Stored k x
    → IsU64 (widen k x) × (in_range k (widen k x) ≡ true) × (narrow k (widen k x) ≡ x)
unfolding storage_bits widen sign_extend in_range narrow signed_key
widen-narrow vec_int16 x h = (ground arith, ground arith, ground arith)
widen-narrow vec_int32 x h = (ground arith, ground arith, ground arith)
widen-narrow vec_date x h = (ground arith, ground arith, ground arith)
widen-narrow vec_enum32 x h = (ground arith, ground arith, ground arith)
widen-narrow _ x h = (h, refl, refl)

pub map-widen-IsU64 : (k : VecKind) (xs : List ℕ) → All (Stored k) xs → All IsU64 (map (widen k) xs)
map-widen-IsU64 k [] h = tt
map-widen-IsU64 k (x ∷ xs) (hx, hxs) = ((widen-narrow k x hx).0, map-widen-IsU64 k xs hxs)

-- What the base and the residuals add up to is written back.
pub write_for_values-sums :
    (k : VecKind) (base i : ℕ) (rs xs : List ℕ)
    → All (Stored k) xs
    → map (add64 base) rs ≡ map (widen k) xs
    → write_for_values k base i rs ≡ decoded xs
unfolding write_for_values cons_word
write_for_values-sums k base i [] [] h e = refl
write_for_values-sums k base i [] (x ∷ xs) h e = cc
write_for_values-sums k base i (r ∷ rs) [] h e = cc
write_for_values-sums k base i (r ∷ rs) (x ∷ xs) (hx, hxs) e =
    let here : add64 base r ≡ widen k x = cc in
    let there : map (add64 base) rs ≡ map (widen k) xs = cc in
    let fact = widen-narrow k x hx in
    rw (here, fact.1, fact.2, write_for_values-sums k base (suc i) rs xs hxs there) refl
