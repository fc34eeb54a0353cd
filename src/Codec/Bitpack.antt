-- ===== src/Codec/Bitpack.antt =====
-- internal/storage/codec/bitpack.go: blocks of 1024 numbers as 16 groups of 64, each stored as one
-- 64-bit word for every bit position. The destination of Pack and the source of Unpack are the
-- bytes of the packed part; a width outside 1 to 64 panics, which is `none`.
use Prim.Native.Nat.{bit_and, bit_or}
use dripsql.Base.{
  ℕ, zero, suc, ltb, leb, if◌then◌else◌, ◌+◌, ◌-◌, ◌*◌, ◌/◌, ◌%◌, min, Bool, Option, none, some,
  List, [], ◌∷◌, ◌++◌, take, drop, length, ◌||◌,
}
use dripsql.Base.Bytes.{le_bytes, from_le, zeros}
use dripsql.Base.Bits.{shl, shr}

abbrev pub block_size : ℕ
block_size = 1024

-- A group's bytes, and with it the block's 16 groups: 128 bytes for every bit of width.
unfoldable pub packed_size : ℕ → ℕ → ℕ
packed_size rows width = (rows + block_size - 1) / block_size * width * 128

unfoldable pub bad_width : ℕ → Bool
bad_width width = ltb width 1 || ltb 64 width

-- The innermost loop of packBlock and of unpackBlock: bit i of each number becomes the word's bit
-- k, k + 1 and so on.
unfoldable pub gather : ℕ → ℕ → List ℕ → ℕ → ℕ
gather i k [] word = word
gather i k (x ∷ xs) word = gather i (suc k) xs (bit_or word (shl (bit_and (shr x i) 1) k))

-- n words, for the bits from i on.
unfoldable pub transpose : ℕ → ℕ → List ℕ → List ℕ
transpose i zero xs = []
transpose i (suc n) xs = gather i 0 xs 0 ∷ transpose (suc i) n xs

unfoldable pub put_words : List ℕ → List ℕ
put_words [] = []
put_words (w ∷ ws) = le_bytes 8 w ++ put_words ws

unfoldable pub get_words : ℕ → List ℕ → List ℕ
get_words zero src = []
get_words (suc n) src = from_le (take 8 src) ∷ get_words n (drop 8 src)

unfoldable pub pack_groups : ℕ → ℕ → List ℕ → List ℕ
pack_groups zero width block = []
pack_groups (suc n) width block =
    put_words (transpose 0 width (take 64 block)) ++ pack_groups n width (drop 64 block)

unfoldable pub pack_block : ℕ → List ℕ → List ℕ
pack_block width block = pack_groups 16 width block

-- The rows that are there, and zeros up to a full block.
unfoldable pub padded : List ℕ → List ℕ
padded src = take block_size src ++ zeros (block_size - length src)

unfoldable pub pack_blocks : ℕ → ℕ → List ℕ → List ℕ
pack_blocks zero width src = []
pack_blocks (suc n) width src =
    pack_block width (padded src) ++ pack_blocks n width (drop block_size src)

unfoldable pub pack : ℕ → List ℕ → Option (List ℕ)
pack width src =
    if bad_width width
    then none
    else some (pack_blocks ((length src + block_size - 1) / block_size) width src)

-- buildUnpackBytePlaneTable's innermost loop: the byte's bits from `bit` on, each as a byte.
unfoldable pub plane_bits : ℕ → ℕ → ℕ → ℕ → ℕ → ℕ
plane_bits plane b bit zero packed = packed
plane_bits plane b bit (suc n) packed =
    plane_bits plane b (suc bit) n (
      if leb 1 (bit_and b (shl 1 bit)) then bit_or packed (shl (shl 1 plane) (bit * 8)) else packed)

unfoldable pub byte_plane : ℕ → ℕ → ℕ
byte_plane plane b = plane_bits plane b 0 8 0

-- One lane of unpackBlockSmallWidth: eight numbers, the bytes of `packed`.
unfoldable pub lane_word : ℕ → ℕ → List ℕ → ℕ → ℕ
lane_word shift i [] packed = packed
lane_word shift i (w ∷ ws) packed =
    lane_word shift (suc i) ws (bit_or packed (byte_plane i (shr w shift % 256)))

unfoldable pub unpack_lanes : ℕ → ℕ → List ℕ → List ℕ
unpack_lanes lane zero words = []
unpack_lanes lane (suc n) words =
    le_bytes 8 (lane_word (lane * 8) 0 words 0) ++ unpack_lanes (suc lane) n words

unfoldable pub unpack_words : ℕ → List ℕ → List ℕ
unpack_words width words = if leb width 8 then unpack_lanes 0 8 words else transpose 0 64 words

unfoldable pub unpack_groups : ℕ → ℕ → List ℕ → List ℕ
unpack_groups zero width src = []
unpack_groups (suc n) width src =
    unpack_words width (get_words width src) ++ unpack_groups n width (drop (width * 8) src)

unfoldable pub unpack_block : ℕ → List ℕ → List ℕ
unpack_block width src = unpack_groups 16 width src

unfoldable pub unpack_blocks : ℕ → ℕ → List ℕ → ℕ → List ℕ
unpack_blocks zero width src rows = []
unpack_blocks (suc n) width src rows =
    take (min block_size rows) (unpack_block width (take (width * 128) src))
    ++ unpack_blocks n width (drop (width * 128) src) (rows - block_size)

unfoldable pub unpack : ℕ → List ℕ → ℕ → Option (List ℕ)
unpack width src rows =
    if bad_width width
    then none
    else some (unpack_blocks ((rows + block_size - 1) / block_size) width src rows)
