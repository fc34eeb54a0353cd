-- ===== src/Codec/Packed.antt =====
-- internal/storage/codec/bitpack.go: what Pack writes, Unpack reads.
use mathlib.Core.List.{append_assoc, append-nil, map-append}
use dripsql.Base.{
  ℕ, zero, suc, ◌+◌, ◌-◌, ◌*◌, ◌/◌, ◌%◌, ◌^◌, ◌≤◌, ◌<◌, ◌≡◌, refl, ap, sym, ◌∙◌, arith, List, [],
  ◌∷◌, ◌++◌, length, map, All, take, drop, min, some, le→ltb, take-append, drop-append,
  length-append, length-take, length-drop, take-append-drop,
}
use dripsql.Base.Bytes.{le_bytes, length-le_bytes, from_le-le_bytes, zeros, length-zeros}
use dripsql.Base.Bits.{shl, low, low-mod, shl-pow}
use dripsql.Codec.Bitpack.{
  block_size, transpose, put_words, get_words, pack_groups, pack_block, padded, pack_blocks, pack,
  unpack_words, unpack_groups, unpack_block, unpack_blocks, unpack, bad_width, packed_size,
}
use dripsql.Codec.Transpose.{weave-lt, gather-zero, transpose-transpose, length-transpose}
use dripsql.Codec.Planes.{unpack_words-transpose}

IsWord : ℕ → Type 0
IsWord w = w < 256 ^ 8

transpose-IsWord : (i n : ℕ) (xs : List ℕ) → length xs ≡ 64 → All IsWord (transpose i n xs)
unfolding transpose IsWord
transpose-IsWord i zero xs h = tt
transpose-IsWord i (suc n) xs h = (
  omega (arith, gather-zero i xs, weave-lt i xs, ap (shl 1) h, shl-pow 64),
  transpose-IsWord (suc i) n xs h,
)

length-put_words : (ws : List ℕ) → length (put_words ws) ≡ length ws * 8
unfolding put_words
length-put_words [] = refl
length-put_words (w ∷ ws) =
    omega
      (arith, length-put_words ws, length-append (le_bytes 8 w) (put_words ws), length-le_bytes 8 w)

get_words-put_words :
    (ws rest : List ℕ) → All IsWord ws → get_words (length ws) (put_words ws ++ rest) ≡ ws
unfolding get_words put_words IsWord
get_words-put_words [] rest h = refl
get_words-put_words (w ∷ ws) rest (hw, hws) =
    rw
      (
        append_assoc,
        take-append 8 (le_bytes 8 w) (put_words ws ++ rest) (length-le_bytes 8 w),
        drop-append 8 (le_bytes 8 w) (put_words ws ++ rest) (length-le_bytes 8 w),
        from_le-le_bytes 8 w hw,
        get_words-put_words ws rest hws,
      )
      refl

group_bytes : ℕ → List ℕ → List ℕ
group_bytes width g = put_words (transpose 0 width g)

length-group_bytes : (width : ℕ) (g : List ℕ) → length (group_bytes width g) ≡ width * 8
unfolding group_bytes
length-group_bytes width g =
    omega (arith, length-put_words (transpose 0 width g), length-transpose 0 width g)

unpack-group :
    (width : ℕ) (g rest : List ℕ)
    → length g ≡ 64
    → unpack_words width (get_words width (group_bytes width g ++ rest)) ≡ map (low width) g
unfolding group_bytes
unpack-group width g rest h =
    let ws = transpose 0 width g in
    let n = length-transpose 0 width g in
    ap (λ k. unpack_words width (get_words k (put_words ws ++ rest))) (sym n)
    ∙ ap (unpack_words width) (get_words-put_words ws rest (transpose-IsWord 0 width g h))
    ∙ unpack_words-transpose width ws n
    ∙ ap (λ k. transpose 0 k ws) (sym h)
    ∙ transpose-transpose width [] g

length-pack_groups :
    (n width : ℕ) (block : List ℕ) → length (pack_groups n width block) ≡ n * (width * 8)
unfolding pack_groups
length-pack_groups zero width block = omega arith
length-pack_groups (suc n) width block = omega (
  arith,
  length-pack_groups n width (drop 64 block),
  length-append (put_words (transpose 0 width (take 64 block)))
      (pack_groups n width (drop 64 block)),
  length-put_words (transpose 0 width (take 64 block)),
  length-transpose 0 width (take 64 block),
)

unpack-groups :
    (n width : ℕ) (block rest : List ℕ)
    → length block ≡ n * 64
    → unpack_groups n width (pack_groups n width block ++ rest) ≡ map (low width) block
unfolding unpack_groups pack_groups group_bytes
unpack-groups zero width [] rest h = refl
unpack-groups zero width (x ∷ block) rest h = absurd (omega arith)
unpack-groups (suc n) width block rest h =
    let g = take 64 block in
    let tail = pack_groups n width (drop 64 block) ++ rest in
    let full : length g ≡ 64 = omega (arith, length-take 64 block) in
    let others : length (drop 64 block) ≡ n * 64 = omega (arith, length-drop 64 block) in
    rw
      (
        append_assoc,
        unpack-group width g tail full,
        drop-append (width * 8) (group_bytes width g) tail (length-group_bytes width g),
        unpack-groups n width (drop 64 block) rest others,
      )
      (sym (map-append (low width) g (drop 64 block))
        ∙ ap (map (low width)) (take-append-drop 64 block))

length-padded : (src : List ℕ) → length (padded src) ≡ 1024
unfolding padded
length-padded src = omega (
  arith,
  length-append (take 1024 src) (zeros (1024 - length src)),
  length-take 1024 src,
  length-zeros (1024 - length src),
)

length-pack_block : (width : ℕ) (block : List ℕ) → length (pack_block width block) ≡ width * 128
unfolding pack_block
length-pack_block width block = omega (arith, length-pack_groups 16 width block)

unpack-pack_block :
    (width : ℕ) (block : List ℕ)
    → length block ≡ 1024
    → unpack_block width (pack_block width block) ≡ map (low width) block
unfolding unpack_block pack_block
unpack-pack_block width block h =
    ap (unpack_groups 16 width) (sym (append-nil (pack_groups 16 width block)))
    ∙ unpack-groups 16 width block [] h

length-pack_blocks :
    (n width : ℕ) (src : List ℕ) → length (pack_blocks n width src) ≡ n * width * 128
unfolding pack_blocks
length-pack_blocks zero width src = omega arith
length-pack_blocks (suc n) width src = omega (
  arith,
  length-pack_blocks n width (drop 1024 src),
  length-append (pack_block width (padded src)) (pack_blocks n width (drop 1024 src)),
  length-pack_block width (padded src),
)

pub length-map : (f : ℕ → ℕ) (xs : List ℕ) → length (map f xs) ≡ length xs
length-map f [] = refl
length-map f (x ∷ xs) = ap suc (length-map f xs)

first_rows :
    (width : ℕ) (src : List ℕ)
    → take (min 1024 (length src)) (map (low width) (padded src)) ≡ map (low width) (take 1024 src)
unfolding padded
first_rows width src =
    let pad = zeros (1024 - length src) in
    ap (take (min 1024 (length src))) (map-append (low width) (take 1024 src) pad)
    ∙ take-append (min 1024 (length src)) (map (low width) (take 1024 src)) (map (low width) pad)
        (length-map (low width) (take 1024 src) ∙ length-take 1024 src)

map-low : (width : ℕ) (src : List ℕ) → map (low width) src ≡ map (λ x. x % 2 ^ width) src
map-low width [] = refl
map-low width (x ∷ src) = rw (low-mod width x, map-low width src) refl

unpack-pack_blocks :
    (n width : ℕ) (src : List ℕ)
    → length src ≤ n * 1024
    → unpack_blocks n width (pack_blocks n width src) (length src) ≡ map (low width) src
unfolding unpack_blocks pack_blocks
unpack-pack_blocks zero width [] h = refl
unpack-pack_blocks zero width (x ∷ src) h = absurd (omega arith)
unpack-pack_blocks (suc n) width src h =
    let block = pack_block width (padded src) in
    let rest = pack_blocks n width (drop 1024 src) in
    let len = length-pack_block width (padded src) in
    let first : take (min 1024 (length src)) (map (low width) (padded src))
        ≡ map (low width) (take 1024 src) =
      first_rows width src in
    rw
      (
        take-append (width * 128) block rest len,
        drop-append (width * 128) block rest len,
        unpack-pack_block width (padded src) (length-padded src),
        first,
        ← length-drop 1024 src,
        unpack-pack_blocks n width (drop 1024 src) (omega (arith, length-drop 1024 src)),
      )
      (sym (map-append (low width) (take 1024 src) (drop 1024 src))
        ∙ ap (map (low width)) (take-append-drop 1024 src))

-- Packing takes packed_size bytes, and unpacking them brings back every number's lowest `width`
-- bits, whatever the width from 1 to 64 and however many numbers there are.
pub unpack-pack :
    (width : ℕ) (src : List ℕ)
    → 1 ≤ width
    → width ≤ 64
    → (bytes : List ℕ) × (pack width src ≡ some bytes)
      × (length bytes ≡ packed_size (length src) width)
      × (unpack width bytes (length src) ≡ some (map (λ x. x % 2 ^ width) src))
unfolding pack unpack packed_size bad_width
unpack-pack width src h1 h64 =
    let n = (length src + block_size - 1) / block_size in
    let bytes = pack_blocks n width src in
    (
      bytes,
      rw (le→ltb width 1 h1, le→ltb 64 width h64) refl,
      length-pack_blocks n width src,
      rw (le→ltb width 1 h1, le→ltb 64 width h64)
          (ap some (unpack-pack_blocks n width src (omega arith) ∙ map-low width src)),
    )
