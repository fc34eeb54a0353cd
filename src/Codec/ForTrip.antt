-- ===== src/Codec/ForTrip.antt =====
-- internal/storage/codec/for_bitpack.go: Decode brings back what Encode was given.
use dripsql.Base.{
  ℕ, zero, suc, leb, ltb, ◌+◌, ◌-◌, ◌%◌, ◌^◌, ◌<◌, ◌≡◌, refl, ap, sym, ◌∙◌, arith, true, false,
  some, List, [], ◌∷◌, ◌++◌, ◌||◌, ◌&&◌, map, length, drop, nat_beq, get_or, All, Bool-cases, inl,
  inr, length-append, take-append,
}
use dripsql.Base.Bytes.{le_bytes, length-le_bytes, from_le-le_bytes}
use dripsql.Base.Int64.{IsU64, sub64}
use dripsql.Codec.Bitpack.{packed_size, unpack}
use dripsql.Codec.Packed.{unpack-pack, length-map}
use dripsql.Codec.Kinds.{
  Vec, is_for_packable, read_for_values, valid_decode_args, decoded, IsStored, map-widen-IsU64,
  write_for_values-sums, widen,
}
use dripsql.Codec.ForBack.{IsFor, FactsCover, chosen-IsFor, distances-back}
use dripsql.Codec.For.{
  EncodeContext, too_long, for_fits, for_payload, for_encode, for_decode, residuals_or,
}

-- A header of n bytes, a byte, and the rest.
pub get_or-seam :
    (n : ℕ) (head rest : List ℕ) (b : ℕ) → length head ≡ n → get_or (head ++ b ∷ rest) n 0 ≡ b
get_or-seam zero [] rest b h = refl
get_or-seam zero (x ∷ head) rest b h = absurd (omega arith)
get_or-seam (suc n) [] rest b h = absurd (omega arith)
get_or-seam (suc n) (x ∷ head) rest b h = get_or-seam n head rest b (omega arith)

pub drop-seam :
    (n : ℕ) (head rest : List ℕ) (b : ℕ) → length head ≡ n → drop (suc n) (head ++ b ∷ rest) ≡ rest
drop-seam zero [] rest b h = refl
drop-seam zero (x ∷ head) rest b h = absurd (omega arith)
drop-seam (suc n) [] rest b h = absurd (omega arith)
drop-seam (suc n) (x ∷ head) rest b h = drop-seam n head rest b (omega arith)

for_fits-IsFor :
    (v : Vec) (ctx : EncodeContext) (base width : ℕ)
    → IsStored v
    → FactsCover v ctx.facts
    → for_fits v ctx ≡ some (base, width)
    → IsFor v base width
unfolding for_fits IsStored read_for_values
for_fits-IsFor v ctx base width st c h = elim (Bool-cases (is_for_packable v.kind)) [
  | inl p ↦ elim (Bool-cases (nat_beq (length v.words) 0)) [
    | inl e ↦ cc (rw (p, e) at h)
    | inr e ↦
        chosen-IsFor v ctx.facts base width p (ground arith) (map-widen-IsU64 v.kind v.words st) c
          (rw (p, e) at h)
  ]
  | inr p ↦ cc (rw p at h)
]

pub read-IsU64 : (v : Vec) → IsStored v → All IsU64 (read_for_values v)
unfolding IsStored read_for_values
read-IsU64 v st = map-widen-IsU64 v.kind v.words st

module _ (v : Vec) (base width : ℕ) (st : IsStored v) (p : IsFor v base width) where
  distances : List ℕ
  distances = map (λ x. sub64 x base) (read_for_values v)

  length-distances : length distances ≡ length v.words
  unfolding distances read_for_values
  length-distances = length-map _ (map (widen v.kind) v.words) ∙ length-map (widen v.kind) v.words

  for_payload-some :
      (packed : List ℕ) × (for_payload v (base, width) ≡ some (le_bytes 8 base ++ width ∷ packed))
      × (length packed ≡ packed_size (length v.words) width)
      × (unpack width packed (length v.words) ≡ some (map (λ x. x % 2 ^ width) distances))
  unfolding for_payload distances
  for_payload-some =
      let u = unpack-pack width distances p.width_pos p.width_max in
      let byte : width % 256 ≡ width = omega (arith, p.width_max) in
      (
        u.0,
        rw (u.1, byte) refl,
        u.2 ∙ ap (λ n. packed_size n width) length-distances,
        ap (unpack width u.0) (sym length-distances) ∙ u.3,
      )

  payload-decoded :
      (packed : List ℕ)
      → length v.words < 2 ^ 31
      → length packed ≡ packed_size (length v.words) width
      → unpack width packed (length v.words) ≡ some (map (λ x. x % 2 ^ width) distances)
      → for_decode (le_bytes 8 base ++ width ∷ packed) v.kind (length v.words) 0 ≡ decoded v.words
  unfolding for_decode valid_decode_args residuals_or IsStored read_for_values distances
  payload-decoded packed few len u =
      let head = length-le_bytes 8 base in
      let size : length (le_bytes 8 base ++ width ∷ packed)
          ≡ 9 + packed_size (length v.words) width =
        omega (arith, length-append (le_bytes 8 base) (width ∷ packed), len, head) in
      let good : (leb (length v.words) (2 ^ 31 - 1) && leb 0 (length v.words)) ≡ true =
        ground arith in
      let rows : nat_beq (length v.words) 0 ≡ false = ground (arith, p.some_rows) in
      let long : ltb (length (le_bytes 8 base ++ width ∷ packed)) 9 ≡ false =
        ground (arith, size) in
      let at : get_or (le_bytes 8 base ++ width ∷ packed) 8 0 ≡ width =
        get_or-seam 8 (le_bytes 8 base) packed width head in
      let wide : (ltb width 1 || ltb 64 width) ≡ false = ground (arith, p.width_pos, p.width_max) in
      let exact : nat_beq (length (le_bytes 8 base ++ width ∷ packed))
            (9 + packed_size (length v.words) width)
          ≡ true =
        ground (arith, size) in
      rw
        (
          good,
          p.packable,
          rows,
          long,
          at,
          wide,
          exact,
          drop-seam 8 (le_bytes 8 base) packed width head,
          u,
          take-append 8 (le_bytes 8 base) (width ∷ packed) head,
          from_le-le_bytes 8 base p.base_u64,
        )
        (write_for_values-sums v.kind base 0 _ v.words st
          (distances-back base width (read_for_values v) p.base_u64 (read-IsU64 v st) p.covers))

-- Where forFits finds a base and a width, and the payload is not too long, Encode returns a payload
-- of 9 bytes and the packed distances, and Decode brings back the page. A page has fewer than 2 ^ 31
-- rows, its patterns fit their kind, and an analysis that came with it covers its values.
pub for_decode-for_encode :
    (v : Vec) (ctx : EncodeContext) (base width : ℕ)
    → IsStored v
    → length v.words < 2 ^ 31
    → FactsCover v ctx.facts
    → for_fits v ctx ≡ some (base, width)
    → too_long ctx (9 + packed_size (length v.words) width) ≡ false
    → (payload : List ℕ) × (for_encode v ctx ≡ some payload)
      × (length payload ≡ 9 + packed_size (length v.words) width)
      × (for_decode payload v.kind (length v.words) 0 ≡ decoded v.words)
unfolding for_encode
for_decode-for_encode v ctx base width st few c f short =
    let p = for_fits-IsFor v ctx base width st c f in
    let r = for_payload-some v base width st p in
    let payload = le_bytes 8 base ++ width ∷ r.0 in
    (
      payload,
      rw (f, short, r.1) refl,
      omega (arith, length-append (le_bytes 8 base) (width ∷ r.0), length-le_bytes 8 base, r.2),
      payload-decoded v base width st p r.0 few r.2 r.3,
    )
