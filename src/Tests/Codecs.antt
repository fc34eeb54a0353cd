-- ===== src/Tests/Codecs.antt =====
-- The page codecs at short pages.
use dripsql.Base.{
  true, false, ℕ, ◌≡◌, ◌+◌, ◌%◌, ◌^◌, refl, none, some, List, [], ◌∷◌, arith, length, map,
}
use dripsql.Base.Int64.{sub64, signed_key, less64}
use dripsql.Storage.PageEntry.{and_then}
use dripsql.Codec.Bitpack.{packed_size, pack, unpack, unpack_words, transpose}
use dripsql.Codec.Planes.{unpack_words-transpose}
use dripsql.Codec.Packed.{unpack-pack}
use dripsql.Codec.Kinds.{
  Vec, vec_int32, vec_int64, IsStored, decoded, storage_bits, is_for_packable, read_for_values,
  widen, sign_extend, fixed_width,
}
use dripsql.Codec.Spans.{span_loop, span_params, widen_span, bit_len}
use dripsql.Codec.For.{
  EncodeContext, for_fits, for_choice, for_params, narrower, for_encode, for_decode, too_long,
}
use dripsql.Codec.ForBack.{FactsCover}
use dripsql.Codec.ForTrip.{for_decode-for_encode}
use dripsql.Codec.Delta.{
  DeltaParams, delta_fits, delta_choice, delta_params, deltas, differences, with_first,
  delta_encode, delta_decode,
}
use dripsql.Codec.DeltaTrip.{DeltaKnown}
use dripsql.Codec.DeltaDecode.{delta_decode-delta_encode}
use dripsql.Codec.Sequence.{
  sequence_fits, sequence_choice, is_sequence, steps, sequence_kind, is_eight, SequenceKnown,
  sequence_encode, sequence_decode, sequence_decode-sequence_encode,
}

unpack_words-transpose_example : unpack_words 2 (5 ∷ 6 ∷ []) ≡ transpose 0 64 (5 ∷ 6 ∷ [])
unpack_words-transpose_example = unpack_words-transpose 2 (5 ∷ 6 ∷ []) refl

abbrev numbers : List ℕ
numbers = 5 ∷ 9 ∷ 2 ∷ []

unpack-pack_example :
    (bytes : List ℕ) × (pack 3 numbers ≡ some bytes)
    × (length bytes ≡ packed_size (length numbers) 3)
    × (unpack 3 bytes (length numbers) ≡ some (map (λ x. x % 2 ^ 3) numbers))
unpack-pack_example = unpack-pack 3 numbers (omega arith) (omega arith)

abbrev plain_context : EncodeContext
plain_context = record { facts = none; max_encoded_len = none }

plain-short : (n : ℕ) → too_long plain_context n ≡ false
unfolding too_long
plain-short n = refl

-- -1, 3 and 1 as int32.
abbrev near_page : Vec
near_page = record { kind = vec_int32; words = 4294967295 ∷ 3 ∷ 1 ∷ [] }

near-IsStored : IsStored near_page
unfolding IsStored storage_bits
near-IsStored = (omega arith, (omega arith, (omega arith, tt)))

near-known : FactsCover near_page none
unfolding FactsCover
near-known = tt

near-fits : for_fits near_page plain_context ≡ some (18446744073709551615, 3)
unfolding for_fits for_choice for_params narrower is_for_packable storage_bits read_for_values widen
    sign_extend span_loop span_params widen_span bit_len less64 signed_key sub64 and_then
near-fits = refl

for_decode-for_encode_example :
    (payload : List ℕ) × (for_encode near_page plain_context ≡ some payload)
    × (length payload ≡ 9 + packed_size 3 3)
    × (for_decode payload vec_int32 3 0 ≡ decoded near_page.words)
for_decode-for_encode_example =
    for_decode-for_encode near_page plain_context 18446744073709551615 3 near-IsStored (omega arith)
      near-known near-fits (plain-short _)

abbrev rising_page : Vec
rising_page = record { kind = vec_int64; words = 10 ∷ 13 ∷ 18 ∷ 20 ∷ [] }

abbrev rising_params : DeltaParams
rising_params = record { first = 10; base = 2; width = 2 }

rising-IsStored : IsStored rising_page
unfolding IsStored storage_bits
rising-IsStored = (omega arith, (omega arith, (omega arith, (omega arith, tt))))

rising-known : DeltaKnown rising_page none
unfolding DeltaKnown
rising-known = tt

rising-fits : delta_fits rising_page plain_context ≡ some rising_params
unfolding delta_fits delta_choice delta_params deltas differences with_first for_params narrower
    is_for_packable storage_bits read_for_values widen span_loop span_params widen_span bit_len
    less64 signed_key sub64 and_then
rising-fits = refl

delta_decode-delta_encode_example :
    (payload : List ℕ) × (delta_encode rising_page plain_context ≡ some payload)
    × (length payload ≡ 17 + packed_size 3 2)
    × (delta_decode payload vec_int64 4 0 ≡ decoded rising_page.words)
delta_decode-delta_encode_example =
    delta_decode-delta_encode rising_page plain_context rising_params rising-IsStored (omega arith)
      rising-known rising-fits (plain-short _)

-- The numbers pass the largest int64 and go on at the smallest.
abbrev overflowing_page : Vec
overflowing_page = record {
  kind = vec_int64;
  words = 9223372036854775806 ∷ 9223372036854775807 ∷ 9223372036854775808 ∷ [];
}

overflowing-known : SequenceKnown overflowing_page.words none
unfolding SequenceKnown
overflowing-known = tt

overflowing-fits : sequence_fits overflowing_page plain_context ≡ true
unfolding sequence_fits sequence_choice is_sequence steps sequence_kind is_eight is_for_packable
    fixed_width sub64
overflowing-fits = refl

sequence_decode-sequence_encode_example :
    (payload : List ℕ) × (sequence_encode overflowing_page plain_context ≡ some payload)
    × (sequence_decode payload vec_int64 3 0 ≡ decoded overflowing_page.words)
sequence_decode-sequence_encode_example =
    sequence_decode-sequence_encode overflowing_page plain_context
      (omega arith, (omega arith, (omega arith, tt))) (omega arith) overflowing-known
      overflowing-fits (plain-short 16)
