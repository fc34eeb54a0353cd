-- ===== src/Codec/DeltaDecode.antt =====
-- internal/storage/codec/delta_bitpack.go: Decode brings back what Encode was given.
use mathlib.Core.Path.{subst}
use mathlib.Core.List.{append_assoc}
use dripsql.Base.{
  ℕ, leb, ltb, ◌+◌, ◌-◌, ◌%◌, ◌^◌, ◌<◌, ◌≤◌, ◌≡◌, refl, ap, sym, ◌∙◌, arith, true, false, some,
  List, ◌∷◌, ◌++◌, ◌||◌, ◌&&◌, map, length, take, drop, nat_beq, get_or, length-append, take-append,
  drop-append,
}
use dripsql.Base.Bytes.{le_bytes, from_le, length-le_bytes, from_le-le_bytes}
use dripsql.Base.Int64.{IsU64, sub64, add64}
use dripsql.Codec.Bitpack.{packed_size, unpack}
use dripsql.Codec.Packed.{unpack-pack, length-map}
use dripsql.Codec.Kinds.{
  Vec, is_for_packable, read_for_values, valid_decode_args, decoded, IsStored,
  write_for_values-sums, widen,
}
use dripsql.Codec.For.{EncodeContext, too_long, residuals_or}
use dripsql.Codec.ForTrip.{get_or-seam, drop-seam, read-IsU64}
use dripsql.Codec.DeltaTrip.{
  DeltaKnown, IsDelta, delta_fits-IsDelta, values-back, first-IsU64, length-deltas, add64-nothing,
}
use dripsql.Codec.Delta.{
  deltas, DeltaParams, delta_fits, delta_payload, delta_encode, running, delta_decode,
}

module _ (v : Vec) (p : DeltaParams) (st : IsStored v) (d : IsDelta v p)
    (two : 2 ≤ length v.words) where
  residuals : List ℕ
  residuals = map (λ x. sub64 x p.base) (deltas (read_for_values v))

  length-residuals : length residuals ≡ length v.words - 1
  unfolding residuals read_for_values
  length-residuals =
      length-map _ (deltas (map (widen v.kind) v.words))
      ∙ length-deltas (map (widen v.kind) v.words)
      ∙ ap (λ n. n - 1) (length-map (widen v.kind) v.words)

  payload : List ℕ → List ℕ
  payload packed = le_bytes 8 p.first ++ (le_bytes 8 p.base ++ p.width ∷ packed)

  length-payload : (packed : List ℕ) → length (payload packed) ≡ 17 + length packed
  unfolding payload
  length-payload packed = omega (
    arith,
    length-append (le_bytes 8 p.first) (le_bytes 8 p.base ++ p.width ∷ packed),
    length-append (le_bytes 8 p.base) (p.width ∷ packed),
    length-le_bytes 8 p.first,
    length-le_bytes 8 p.base,
  )

  header_split :
      (packed : List ℕ)
      → payload packed ≡ (le_bytes 8 p.first ++ le_bytes 8 p.base) ++ p.width ∷ packed
  unfolding payload
  header_split packed =
      sym (append_assoc (le_bytes 8 p.first) (le_bytes 8 p.base) (p.width ∷ packed))

  length-header : length (le_bytes 8 p.first ++ le_bytes 8 p.base) ≡ 16
  length-header = omega (
    arith,
    length-append (le_bytes 8 p.first) (le_bytes 8 p.base),
    length-le_bytes 8 p.first,
    length-le_bytes 8 p.base,
  )

  delta_payload-some :
      (packed : List ℕ) × (delta_payload v p ≡ some (payload packed))
      × (length packed ≡ packed_size (length v.words - 1) p.width)
      × (unpack p.width packed (length v.words - 1) ≡ some (map (λ x. x % 2 ^ p.width) residuals))
  unfolding delta_payload residuals payload
  delta_payload-some =
      let u = unpack-pack p.width residuals d.width_pos d.width_max in
      let byte : p.width % 256 ≡ p.width = omega (arith, d.width_max) in
      (
        u.0,
        rw (u.1, byte) refl,
        u.2 ∙ ap (λ n. packed_size n p.width) length-residuals,
        ap (unpack p.width u.0) (sym length-residuals) ∙ u.3,
      )

  header-read :
      (packed : List ℕ)
      → (from_le (take 8 (payload packed)) ≡ p.first)
        × (from_le (take 8 (drop 8 (payload packed))) ≡ p.base)
        × (get_or (payload packed) 16 0 ≡ p.width)
        × (drop 17 (payload packed) ≡ packed)
  unfolding payload le_bytes
  header-read packed =
      let n = length-le_bytes 8 in
      let tail = le_bytes 8 p.base ++ p.width ∷ packed in
      let first_u64 : IsU64 p.first =
        subst IsU64 (sym d.first) (first-IsU64 (read_for_values v) (read-IsU64 v st)) in
      (
        ap from_le (take-append 8 (le_bytes 8 p.first) tail (n p.first))
            ∙ from_le-le_bytes 8 p.first first_u64,
        ap (λ l. from_le (take 8 l)) (drop-append 8 (le_bytes 8 p.first) tail (n p.first))
            ∙ ap from_le (take-append 8 (le_bytes 8 p.base) (p.width ∷ packed) (n p.base))
            ∙ from_le-le_bytes 8 p.base d.base_u64,
        ap (λ l. get_or l 16 0) (header_split packed)
            ∙ get_or-seam 16 (le_bytes 8 p.first ++ le_bytes 8 p.base) packed p.width length-header,
        ap (drop 17) (header_split packed)
            ∙ drop-seam 16 (le_bytes 8 p.first ++ le_bytes 8 p.base) packed p.width length-header,
      )

  sums :
      map (add64 0) (p.first ∷ running p.base p.first (map (λ x. x % 2 ^ p.width) residuals))
      ≡ map (widen v.kind) v.words
  unfolding residuals read_for_values
  sums =
      let vals = map (widen v.kind) v.words in
      let many : 2 ≤ length vals = omega (arith, two, length-map (widen v.kind) v.words) in
      let masked = map (λ x. x % 2 ^ p.width) (map (λ x. sub64 x p.base) (deltas vals)) in
      ap (map (add64 0)) (
        ap (λ f. f ∷ running p.base f masked) d.first
        ∙ values-back p.base p.width vals many d.base_u64 (read-IsU64 v st) d.covers)
      ∙ add64-nothing vals (read-IsU64 v st)

  payload-decoded :
      (packed : List ℕ)
      → length v.words < 2 ^ 31
      → is_for_packable v.kind ≡ true
      → length packed ≡ packed_size (length v.words - 1) p.width
      → unpack p.width packed (length v.words - 1) ≡ some (map (λ x. x % 2 ^ p.width) residuals)
      → delta_decode (payload packed) v.kind (length v.words) 0 ≡ decoded v.words
  unfolding delta_decode valid_decode_args residuals_or IsStored
  payload-decoded packed few k len u =
      let rows = length v.words in
      let r = header-read packed in
      let size = length-payload packed in
      let good : (leb rows (2 ^ 31 - 1) && leb 0 rows) ≡ true = ground arith in
      let some_rows : nat_beq rows 0 ≡ false = ground arith in
      let enough : ltb rows 2 ≡ false = ground arith in
      let long : ltb (length (payload packed)) 17 ≡ false = ground (arith, size) in
      let wide : (ltb p.width 1 || ltb 64 p.width) ≡ false =
        ground (arith, d.width_pos, d.width_max) in
      let exact : nat_beq (length (payload packed)) (17 + packed_size (rows - 1) p.width) ≡ true =
        ground (arith, size, len) in
      rw (good, k, some_rows, enough, long, r.2, wide, exact, r.3, u, r.0, r.1)
        (write_for_values-sums v.kind 0 0 _ v.words st sums)

-- Where deltaFits finds parameters, and the payload is not too long, Encode returns a payload of 17
-- bytes and the packed differences, and Decode brings back the page, also where differences overflow.
-- A page has fewer than 2 ^ 31 rows, its patterns fit their kind, and an analysis that came with it
-- names its first value and covers its differences.
pub delta_decode-delta_encode :
    (v : Vec) (ctx : EncodeContext) (p : DeltaParams)
    → IsStored v
    → length v.words < 2 ^ 31
    → DeltaKnown v ctx.facts
    → delta_fits v ctx ≡ some p
    → too_long ctx (17 + packed_size (length v.words - 1) p.width) ≡ false
    → (payload : List ℕ) × (delta_encode v ctx ≡ some payload)
      × (length payload ≡ 17 + packed_size (length v.words - 1) p.width)
      × (delta_decode payload v.kind (length v.words) 0 ≡ decoded v.words)
unfolding delta_encode
delta_decode-delta_encode v ctx p st few c f short =
    let q = delta_fits-IsDelta v ctx p c f in
    let r = delta_payload-some v p st q.0 q.2 in
    (
      payload v p st q.0 q.2 r.0,
      rw (f, short) r.1,
      omega (arith, length-payload v p st q.0 q.2 r.0, r.2),
      payload-decoded v p st q.0 q.2 r.0 few q.1 r.2 r.3,
    )
