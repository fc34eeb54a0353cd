-- ===== src/Codec/Sequence.antt =====
-- internal/storage/codec/sequence.go: an arithmetic progression is its start and its step. Numbers
-- are 64-bit patterns and wrap around.
use native.Mathlib.Nat.{mul-suc, mul-zero}
use dripsql.Base.{
  ℕ, zero, suc, ltb, if◌then◌else◌, ◌+◌, ◌-◌, ◌*◌, ◌%◌, ◌^◌, ◌<◌, ◌≤◌, ◌≡◌, refl, ap, arith, Bool,
  true, false, Option, none, some, List, [], ◌∷◌, ◌++◌, ◌&&◌, not, length, take, drop, nat_beq, All,
  Bool-cases, inl, inr, take-append, drop-append, take-all, length-append, nat_beq_iff, leb, sym,
}
use dripsql.Base.Bytes.{le_bytes, from_le, length-le_bytes, from_le-le_bytes}
use dripsql.Base.Int64.{IsU64, sub64, sub64-IsU64}
use dripsql.Codec.Kinds.{
  VecKind, Vec, Width, bytes, var_bytes, width_bool, fixed_width, is_for_packable,
  valid_decode_args, Decoding, decoded, refused, CodecError,
}
use dripsql.Codec.For.{IntFacts, EncodeContext, too_long}

unfoldable pub is_eight : Width → Bool
is_eight (bytes n) = nat_beq n 8
is_eight var_bytes = false
is_eight width_bool = false

unfoldable pub sequence_kind : VecKind → Bool
sequence_kind k = is_eight (fixed_width k) && is_for_packable k

-- The values behind `prev` go on by `step`.
unfoldable pub steps : ℕ → ℕ → List ℕ → Bool
steps step prev [] = true
steps step prev (x ∷ xs) = nat_beq (sub64 x prev) step && steps step x xs

unfoldable pub is_sequence : List ℕ → Bool
is_sequence (x ∷ y ∷ xs) = steps (sub64 y x) y xs
is_sequence _ = false

unfoldable pub sequence_choice : List ℕ → Option IntFacts → Bool
sequence_choice xs (some f) = f.sequence_ok
sequence_choice xs none = is_sequence xs

unfoldable pub sequence_fits : Vec → EncodeContext → Bool
sequence_fits v ctx =
    if not (sequence_kind v.kind)
    then false
    else if ltb (length v.words) 2
    then false
    else sequence_choice v.words ctx.facts

unfoldable pub sequence_payload : List ℕ → Option (List ℕ)
sequence_payload (x ∷ y ∷ xs) = some (le_bytes 8 x ++ le_bytes 8 (sub64 y x))
sequence_payload _ = none

unfoldable pub sequence_encode : Vec → EncodeContext → Option (List ℕ)
sequence_encode v ctx =
    if not (sequence_fits v ctx)
    then none
    else if too_long ctx 16
    then none
    else sequence_payload v.words

-- start + step * i, for n values from i on.
unfoldable pub progression : ℕ → ℕ → ℕ → ℕ → List ℕ
progression start step i zero = []
progression start step i (suc n) = (start + step * i) % 2 ^ 64 ∷ progression start step (suc i) n

unfoldable pub sequence_decode : List ℕ → VecKind → ℕ → ℕ → Decoding
sequence_decode payload kind rows null_count =
    if not (valid_decode_args rows null_count)
    then refused CodecError.bad_args
    else if not (sequence_kind kind)
    then refused CodecError.not_packable
    else if nat_beq rows 1
    then refused CodecError.too_few
    else if not (nat_beq (length payload) (if ltb 0 rows then 16 else 0))
    then refused CodecError.bad_length
    else decoded (progression (from_le (take 8 payload)) (from_le (take 8 (drop 8 payload))) 0 rows)

next64 :
    (start step prev x i : ℕ)
    → IsU64 step
    → IsU64 x
    → prev ≡ (start + step * i) % 2 ^ 64
    → sub64 x prev ≡ step
    → x ≡ (start + step * suc i) % 2 ^ 64
unfolding sub64
next64 start step prev x i hs hx e d = omega (arith, mul-suc step i)

steps-progression :
    (start step prev i : ℕ) (xs : List ℕ)
    → IsU64 step
    → All IsU64 xs
    → prev ≡ (start + step * i) % 2 ^ 64
    → steps step prev xs ≡ true
    → progression start step (suc i) (length xs) ≡ xs
unfolding steps progression
steps-progression start step prev i [] hs h e t = refl
steps-progression start step prev i (x ∷ xs) hs (hx, hxs) e t =
    let same : nat_beq (sub64 x prev) step ≡ true = ground arith in
    let rest : steps step x xs ≡ true = ground arith in
    let here : x ≡ (start + step * suc i) % 2 ^ 64 =
      next64 start step prev x i hs hx e ((nat_beq_iff (sub64 x prev) step).0 same) in
    rw (← here, steps-progression start step x (suc i) xs hs hxs here rest) refl

-- What the page's analysis has to know when it says that the page is a sequence.
unfoldable pub SequenceKnown : List ℕ → Option IntFacts → Type 0
SequenceKnown xs none = Unit
SequenceKnown xs (some f) = f.sequence_ok ≡ true → is_sequence xs ≡ true

chosen-sequence :
    (xs : List ℕ) (facts : Option IntFacts)
    → SequenceKnown xs facts
    → sequence_choice xs facts ≡ true
    → is_sequence xs ≡ true
unfolding SequenceKnown sequence_choice
chosen-sequence xs none k h = h
chosen-sequence xs (some f) k h = k h

pub read-header :
    (x y : ℕ) (hx : IsU64 x) (hy : IsU64 y)
    → (from_le (take 8 (le_bytes 8 x ++ le_bytes 8 y)) ≡ x)
      × (from_le (take 8 (drop 8 (le_bytes 8 x ++ le_bytes 8 y))) ≡ y)
      × (length (le_bytes 8 x ++ le_bytes 8 y) ≡ 16)
read-header x y hx hy =
    let n = length-le_bytes 8 in
    (
      rw (take-append 8 (le_bytes 8 x) (le_bytes 8 y) (n x)) (from_le-le_bytes 8 x hx),
      rw
          (
            drop-append 8 (le_bytes 8 x) (le_bytes 8 y) (n x),
            take-all 8 (le_bytes 8 y) (omega (arith, n y)),
          )
          (from_le-le_bytes 8 y hy),
      omega (arith, length-append (le_bytes 8 x) (le_bytes 8 y), n x, n y),
    )

-- From the start, the progression gives the page.
whole-progression :
    (x y : ℕ) (xs : List ℕ)
    → All IsU64 (x ∷ y ∷ xs)
    → is_sequence (x ∷ y ∷ xs) ≡ true
    → progression x (sub64 y x) 0 (length (x ∷ y ∷ xs)) ≡ x ∷ y ∷ xs
unfolding is_sequence progression
whole-progression x y xs (hx, (hy, hxs)) h =
    let step = sub64 y x in
    let first : (x + step * 0) % 2 ^ 64 ≡ x = omega (arith, mul-zero step) in
    let second : (x + step * 1) % 2 ^ 64 ≡ y =
      sym (next64 x step x y 0 (sub64-IsU64 y x) hy (sym first) refl) in
    rw (first, second, steps-progression x step y 1 xs (sub64-IsU64 y x) hxs (sym second) h) refl

payload-trip :
    (k : VecKind) (xs : List ℕ)
    → sequence_kind k ≡ true
    → 2 ≤ length xs
    → length xs < 2 ^ 31
    → All IsU64 xs
    → is_sequence xs ≡ true
    → (payload : List ℕ) × (sequence_payload xs ≡ some payload)
      × (sequence_decode payload k (length xs) 0 ≡ decoded xs)
unfolding sequence_payload sequence_decode valid_decode_args
payload-trip k [] p two few h s = absurd (omega arith)
payload-trip k (x ∷ []) p two few h s = absurd (omega arith)
payload-trip k (x ∷ y ∷ xs) p two few (hx, (hy, hxs)) s =
    let payload = le_bytes 8 x ++ le_bytes 8 (sub64 y x) in
    let r = read-header x (sub64 y x) hx (sub64-IsU64 y x) in
    let good : (leb (length (x ∷ y ∷ xs)) (2 ^ 31 - 1) && leb 0 (length (x ∷ y ∷ xs))) ≡ true =
      ground arith in
    let many : nat_beq (length (x ∷ y ∷ xs)) 1 ≡ false = ground arith in
    let size : nat_beq (length payload) (if ltb 0 (length (x ∷ y ∷ xs)) then 16 else 0) ≡ true =
      ground (arith, r.2) in
    (
      payload,
      refl,
      rw (good, p, many, size, r.0, r.1) (ap decoded (whole-progression x y xs (hx, (hy, hxs)) s)),
    )

-- Where sequenceFits says yes, Encode returns sixteen bytes, if they are not too many, and Decode
-- brings back the page: also where its numbers overflow. An analysis that came with the page says yes
-- to sequences only.
pub sequence_decode-sequence_encode :
    (v : Vec) (ctx : EncodeContext)
    → All IsU64 v.words
    → length v.words < 2 ^ 31
    → SequenceKnown v.words ctx.facts
    → sequence_fits v ctx ≡ true
    → too_long ctx 16 ≡ false
    → (payload : List ℕ) × (sequence_encode v ctx ≡ some payload)
      × (sequence_decode payload v.kind (length v.words) 0 ≡ decoded v.words)
unfolding sequence_encode sequence_fits
sequence_decode-sequence_encode v ctx h few k f short = elim (Bool-cases (sequence_kind v.kind)) [
  | inl p ↦ elim (Bool-cases (ltb (length v.words) 2)) [
    | inl e ↦ cc (rw (p, e) at f)
    | inr e ↦
        let two : 2 ≤ length v.words = ground arith in
        let chosen : sequence_choice v.words ctx.facts ≡ true = rw (p, e) at f in
        let r =
          payload-trip v.kind v.words p two few h (chosen-sequence v.words ctx.facts k chosen) in
        (r.0, rw (p, e, chosen, short) r.1, r.2)
  ]
  | inr p ↦ cc (rw p at f)
]
