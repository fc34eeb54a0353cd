-- ===== src/Codec/Planes.antt =====
-- internal/storage/codec/bitpack.go: unpackBlockSmallWidth computes through its table what the loop
-- over the bits computes.
use Prim.Native.Nat.{bit_and, bit_or}
use dripsql.Base.{
  ℕ, zero, suc, ◌+◌, ◌*◌, ◌%◌, ◌≤◌, ◌<◌, ◌≡◌, refl, ap, sym, ◌∙◌, arith, List, [], ◌∷◌, length,
  leb→le, replicate, All, leb, if◌then◌else◌, Bool-cases, inl, inr, true,
}
use dripsql.Base.Bytes.{le_bytes, from_le, le_bytes-from_le, IsByte}
use dripsql.Base.Bits.{
  shl, shr, or_above, or_parts, and_shl, shl_add, shl_suc, shl_next, shl_pos, shl_zero, zero-or,
  low-mod, shr-low, shr_add, shl_seven, shl_eight, shl_le, shl_mono, shl_byte, shl_of_byte,
}
use dripsql.Codec.Bitpack.{transpose, plane_bits, byte_plane, lane_word, unpack_lanes, unpack_words}
use dripsql.Codec.Transpose.{
  bit, bit-lt, weave, weave-lt, gather-zero, length-transpose, transpose-split,
}

-- The bits of b from t on, each shifted by `plane`.
plane_row : ℕ → ℕ → ℕ → ℕ → List ℕ
plane_row plane b t zero = []
plane_row plane b t (suc n) = shl (bit t b) plane ∷ plane_row plane b (suc t) n

leb_of : {a b : ℕ} → a ≤ b → leb a b ≡ true
leb_of h = ground arith

plane_step :
    (plane b t packed : ℕ)
    → plane < 8
    → packed < shl 1 (t * 8)
    → (if leb 1 (bit_and b (shl 1 t)) then bit_or packed (shl (shl 1 plane) (t * 8)) else packed)
      ≡ packed + shl (shl (bit t b) plane) (t * 8)
unfolding bit
plane_step plane b t packed hp h = rw (and_shl t b) (cases (shr b t % 2) (omega arith))
  where
    cases :
        (x : ℕ)
        → x < 2
        → (if leb 1 (shl x t) then bit_or packed (shl (shl 1 plane) (t * 8)) else packed)
          ≡ packed + shl (shl x plane) (t * 8)
    cases zero lt = rw (shl_zero t, shl_zero plane, shl_zero (t * 8)) (omega arith)
    cases (suc zero) lt =
        let set : leb 1 (shl 1 t) ≡ true = leb_of (omega (arith, shl_pos t)) in
        rw set (or_above (t * 8) packed (shl 1 plane) h)
    cases (suc (suc x)) lt = absurd (omega arith)

-- A byte's bits, each in a byte of its own, stay below the next byte.
plane_room :
    (plane b t packed : ℕ)
    → plane < 8
    → packed < shl 1 (t * 8)
    → packed + shl (shl (bit t b) plane) (t * 8) < shl 1 (suc t * 8)
plane_room plane b t packed hp h =
    let one : shl (bit t b) plane ≤ shl 1 plane =
      shl_mono plane (bit t b) 1 (omega (arith, bit-lt t b)) in
    let most : shl 1 plane ≤ shl 1 7 = shl_le plane 7 (omega arith) in
    let room =
      shl_mono (t * 8) (shl (bit t b) plane + 1) 256 (omega (arith, one, most, shl_seven)) in
    omega
      (arith, room, shl_add (t * 8) (shl (bit t b) plane) 1, shl_byte t 1, shl_of_byte (t * 8) 1)

plane_bits-row :
    (plane b n t packed : ℕ)
    → plane < 8
    → packed < shl 1 (t * 8)
    → plane_bits plane b t n packed ≡ packed + shl (from_le (plane_row plane b t n)) (t * 8)
unfolding plane_bits plane_row from_le
plane_bits-row plane b zero t packed hp h = omega (arith, shl_zero (t * 8))
plane_bits-row plane b (suc n) t packed hp h =
    let c = shl (bit t b) plane in
    let rest = from_le (plane_row plane b (suc t) n) in
    ap (plane_bits plane b (suc t) n) (plane_step plane b t packed hp h)
    ∙ plane_bits-row plane b n (suc t) (packed + shl c (t * 8)) hp
        (plane_room plane b t packed hp h)
    ∙ omega (arith, shl_byte t rest, shl_add (t * 8) c (256 * rest), shl_of_byte (t * 8) rest)

byte_plane-row : (plane b : ℕ) → plane < 8 → byte_plane plane b ≡ from_le (plane_row plane b 0 8)
unfolding byte_plane shl
byte_plane-row plane b hp =
    plane_bits-row plane b 8 0 0 hp (shl_pos 0) ∙ plain (from_le (plane_row plane b 0 8))
  where
    plain : (x : ℕ) → 0 + shl x (0 * 8) ≡ x
    plain x = omega arith

-- One number for every bit from t on: what the words gathered so far, and those to come.
row : ℕ → ℕ → List ℕ → List ℕ → List ℕ
row t i [] ws = []
row t i (d ∷ ds) ws = (d + shl (weave t ws) i) ∷ row (suc t) i ds ws

Below : ℕ → List ℕ → Type 0
Below i ds = All (λ d. d < shl 1 i) ds

-- A byte of a word shows the word's bits.
bit-byte : (w shift t s : ℕ) → s < 8 → t ≡ shift + s → bit s (shr w shift % 256) ≡ bit t w
unfolding bit
bit-byte w shift t s h e =
    ap (λ x. shr x s % 2) (sym (low-mod 8 (shr w shift)))
    ∙ shr-low 8 s (shr w shift) h
    ∙ ap (λ x. x % 2) (shr_add shift s t w e)

weave-one : (t w : ℕ) → weave t (w ∷ []) ≡ bit t w
unfolding weave
weave-one t w = omega arith

weave-cons : (t w : ℕ) (ws : List ℕ) → weave t (w ∷ ws) ≡ bit t w + 2 * weave t ws
unfolding weave
weave-cons t w ws = refl

row-nil : (t i : ℕ) (ds : List ℕ) → row t i ds [] ≡ ds
unfolding row weave
row-nil t i [] = refl
row-nil t i (d ∷ ds) =
    let same : d + shl 0 i ≡ d = omega (arith, shl_zero i) in rw (same, row-nil (suc t) i ds) refl

no_digits : from_le (replicate 8 0) ≡ 0
unfolding from_le
no_digits = refl

Below-zero : (n : ℕ) → Below 0 (replicate n 0)
unfolding Below shl
Below-zero zero = tt
Below-zero (suc n) = (omega arith, Below-zero n)

or_plane :
    (i w shift s : ℕ) (ds : List ℕ)
    → i < 8
    → length ds + s ≡ 8
    → Below i ds
    → bit_or (from_le ds) (from_le (plane_row i (shr w shift % 256) s (length ds)))
      ≡ from_le (row (shift + s) i ds (w ∷ []))
unfolding row plane_row from_le Below
or_plane i w shift s [] h n b = zero-or 0
or_plane i w shift s (d ∷ ds) h n (hd, hds) =
    let b = shr w shift % 256 in
    let t = shift + s in
    let c = shl (bit s b) i in
    let one : bit s b ≡ weave t (w ∷ []) =
      bit-byte w shift t s (omega arith) refl ∙ omega (arith, weave-one t w) in
    let digit : bit_or d c ≡ d + shl (weave t (w ∷ [])) i =
      or_above i d (bit s b) hd ∙ ap (λ x. d + shl x i) one in
    let most : shl 1 i < 256 = omega (arith, shl_le i 7 (omega arith), shl_seven) in
    let small : c ≤ shl 1 i = shl_mono i (bit s b) 1 (omega (arith, bit-lt s b)) in
    let rest = plane_row i b (suc s) (length ds) in
    let next : suc t ≡ shift + suc s = omega arith in
    let tail : bit_or (from_le ds) (from_le rest) ≡ from_le (row (suc t) i ds (w ∷ [])) =
      or_plane i w shift (suc s) ds h (omega arith) hds
      ∙ ap (λ n. from_le (row n i ds (w ∷ []))) (sym next) in
    ap (λ x. bit_or (d + x) (c + 256 * from_le rest)) (sym (shl_eight (from_le ds)))
    ∙ ap (λ x. bit_or (d + shl (from_le ds) 8) (c + x)) (sym (shl_eight (from_le rest)))
    ∙ or_parts 8 d c (from_le ds) (from_le rest) (omega (arith, most, shl_eight 1))
        (omega (arith, small, most, shl_eight 1))
    ∙ omega (arith, digit, tail, shl_eight (bit_or (from_le ds) (from_le rest)))

length-row : (t i : ℕ) (ds ws : List ℕ) → length (row t i ds ws) ≡ length ds
unfolding row
length-row t i [] ws = refl
length-row t i (d ∷ ds) ws = ap suc (length-row (suc t) i ds ws)

row-Below : (t i : ℕ) (ds : List ℕ) (w : ℕ) → Below i ds → Below (suc i) (row t i ds (w ∷ []))
unfolding row Below
row-Below t i [] w h = tt
row-Below t i (d ∷ ds) w (hd, hds) =
    let small : shl (weave t (w ∷ [])) i ≤ shl 1 i =
      shl_mono i (weave t (w ∷ [])) 1 (omega (arith, weave-one t w, bit-lt t w)) in
    (omega (arith, small, shl_next i 1), row-Below (suc t) i ds w hds)

row-cons :
    (t i : ℕ) (ds : List ℕ) (w : ℕ) (ws : List ℕ)
    → row t (suc i) (row t i ds (w ∷ [])) ws ≡ row t i ds (w ∷ ws)
unfolding row
row-cons t i [] w ws = refl
row-cons t i (d ∷ ds) w ws =
    let digit : d + shl (weave t (w ∷ [])) i + shl (weave t ws) (suc i)
        ≡ d + shl (weave t (w ∷ ws)) i =
      omega (
        arith,
        ap (λ x. shl x i) (weave-one t w),
        ap (λ x. shl x i) (weave-cons t w ws),
        shl_add i (bit t w) (2 * weave t ws),
        shl_suc i (weave t ws),
        shl_next i (weave t ws),
      ) in
    rw (digit, row-cons (suc t) i ds w ws) refl

lane_word-row :
    (shift i : ℕ) (ds ws : List ℕ)
    → length ds ≡ 8
    → Below i ds
    → i + length ws ≤ 8
    → lane_word shift i ws (from_le ds) ≡ from_le (row shift i ds ws)
unfolding lane_word
lane_word-row shift i ds [] n b h = ap from_le (sym (row-nil shift i ds))
lane_word-row shift i ds (w ∷ ws) n b h =
    let plane = shr w shift % 256 in
    let start : shift + 0 ≡ shift = omega arith in
    let one : bit_or (from_le ds) (byte_plane i plane) ≡ from_le (row shift i ds (w ∷ [])) =
      ap (bit_or (from_le ds))
        (byte_plane-row i plane (omega arith) ∙ ap (λ k. from_le (plane_row i plane 0 k)) (sym n))
      ∙ or_plane i w shift 0 ds (omega arith) (omega arith) b
      ∙ ap (λ t. from_le (row t i ds (w ∷ []))) start in
    ap (lane_word shift (suc i) ws) one
    ∙ lane_word-row shift (suc i) (row shift i ds (w ∷ [])) ws (length-row shift i ds (w ∷ []) ∙ n)
        (row-Below shift i ds w b) (omega arith)
    ∙ ap from_le (row-cons shift i ds w ws)

row-transpose : (t n : ℕ) (ws : List ℕ) → row t 0 (replicate n 0) ws ≡ transpose t n ws
unfolding row transpose shl
row-transpose t zero ws = refl
row-transpose t (suc n) ws =
    let digit : 0 + weave t ws ≡ weave t ws = omega arith in
    rw (gather-zero t ws, digit, row-transpose (suc t) n ws) refl

transpose-IsByte : (t n : ℕ) (ws : List ℕ) → length ws ≤ 8 → All IsByte (transpose t n ws)
unfolding transpose
transpose-IsByte t zero ws h = tt
transpose-IsByte t (suc n) ws h = (
  omega (arith, gather-zero t ws, weave-lt t ws, shl_le (length ws) 8 h, shl_eight 1),
  transpose-IsByte (suc t) n ws h,
)

lane-transpose :
    (shift : ℕ) (ws : List ℕ)
    → length ws ≤ 8
    → le_bytes 8 (lane_word shift 0 ws 0) ≡ transpose shift 8 ws
lane-transpose shift ws h =
    let nought : from_le (replicate 8 0) ≡ 0 = no_digits in
    ap (le_bytes 8) (
      ap (lane_word shift 0 ws) (sym nought)
      ∙ lane_word-row shift 0 (replicate 8 0) ws refl (Below-zero 8) (omega arith)
      ∙ ap from_le (row-transpose shift 8 ws))
    ∙ ap (λ n. le_bytes n (from_le (transpose shift 8 ws))) (sym (length-transpose shift 8 ws))
    ∙ le_bytes-from_le (transpose shift 8 ws) (transpose-IsByte shift 8 ws h)

unpack_lanes-transpose :
    (lane n : ℕ) (ws : List ℕ)
    → length ws ≤ 8
    → unpack_lanes lane n ws ≡ transpose (lane * 8) (n * 8) ws
unfolding unpack_lanes transpose
unpack_lanes-transpose lane zero ws h = refl
unpack_lanes-transpose lane (suc n) ws h =
    rw (lane-transpose (lane * 8) ws h, unpack_lanes-transpose (suc lane) n ws h)
      (transpose-split 8 (lane * 8) (n * 8) (suc lane * 8) (suc n * 8) ws (omega arith)
        (omega arith))

-- For up to eight words, unpacking through the table of byte planes gives what gathering bit by bit
-- gives: both ways of unpackBlock agree.
pub unpack_words-transpose :
    (width : ℕ) (ws : List ℕ) → length ws ≡ width → unpack_words width ws ≡ transpose 0 64 ws
unfolding unpack_words
unpack_words-transpose width ws h = elim (Bool-cases (leb width 8)) [
  | inl e ↦ rw e (unpack_lanes-transpose 0 8 ws (omega (arith, leb→le width 8 e)))
  | inr e ↦ rw e refl
]
