-- ===== src/Base/Bytes.antt =====
-- encoding/binary's little-endian words, and the bytes of a file as ReadAt, WriteAt and Truncate
-- see them. A byte slice is a list of numbers.
use mathlib.Core.List.{append_assoc}
use native.Mathlib.Nat.{pow-suc}
use dripsql.Base.Tests.{ltb, if◌then◌else◌}
use dripsql.Base.Lists.{
  length, take, drop, replicate, All, take-append, drop-append, length-append, take-all, drop-all,
  drop-append-add, length-replicate,
}
use Prim.Native.Nat.{ℕ, zero, suc, ◌+◌, ◌-◌, ◌*◌, ◌/◌, ◌%◌, ◌^◌, ◌<◌}
use mathlib.Core.Path.{◌≡◌, refl, ap}
use mathlib.Core.List.{List, [], ◌∷◌, ◌++◌, append-nil}
use mathlib.Core.Option.{Option, none, some}
use native.Mathlib.Omega.{arith}

abbrev pub IsByte : ℕ → Type 0
IsByte b = b < 256

-- PutUint16, PutUint32 and PutUint64 at n = 2, 4 and 8.
unfoldable pub le_bytes : ℕ → ℕ → List ℕ
le_bytes zero v = []
le_bytes (suc n) v = (v % 256) ∷ le_bytes n (v / 256)

-- Uint16, Uint32 and Uint64 of the bytes given.
unfoldable pub from_le : List ℕ → ℕ
from_le [] = 0
from_le (b ∷ bs) = b + 256 * from_le bs

pub length-le_bytes : (n v : ℕ) → length (le_bytes n v) ≡ n
unfolding le_bytes
length-le_bytes zero v = refl
length-le_bytes (suc n) v = ap suc (length-le_bytes n (v / 256))

pub le_bytes-IsByte : (n v : ℕ) → All IsByte (le_bytes n v)
unfolding le_bytes
le_bytes-IsByte zero v = tt
le_bytes-IsByte (suc n) v = (omega arith, le_bytes-IsByte n (v / 256))

pub from_le-le_bytes : (n v : ℕ) → v < 256 ^ n → from_le (le_bytes n v) ≡ v
unfolding le_bytes from_le
from_le-le_bytes zero v h = omega arith
from_le-le_bytes (suc n) v h =
    omega (arith, from_le-le_bytes n (v / 256) (omega (arith, pow-suc 256 n)))

pub le_bytes-from_le : (bs : List ℕ) → All IsByte bs → le_bytes (length bs) (from_le bs) ≡ bs
unfolding le_bytes from_le
le_bytes-from_le [] h = refl
le_bytes-from_le (b ∷ bs) (hb, hbs) =
    let low : (b + 256 * from_le bs) % 256 ≡ b = omega arith in
    let high : (b + 256 * from_le bs) / 256 ≡ from_le bs = omega arith in
    rw (low, high, le_bytes-from_le bs hbs)

-- make([]byte, n)
unfoldable pub zeros : ℕ → List ℕ
zeros n = replicate n 0

pub length-zeros : (n : ℕ) → length (zeros n) ≡ n
unfolding zeros
length-zeros n = length-replicate n 0

-- os.File.ReadAt for exactly n bytes; `none` is io.EOF.
unfoldable pub read_at : ℕ → ℕ → List ℕ → Option (List ℕ)
read_at n off file = if ltb (length file) (off + n) then none else some (take n (drop off file))

-- os.File.WriteAt: a gap behind the end is filled with zeros.
unfoldable pub write_at : List ℕ → ℕ → List ℕ → List ℕ
write_at buf off file =
    take off (file ++ zeros (off - length file)) ++ buf ++ drop (off + length buf) file

-- os.File.Truncate: a longer file is extended with zeros.
unfoldable pub truncate : ℕ → List ℕ → List ℕ
truncate n file = take n (file ++ zeros (n - length file))

-- Reading what stands between a prefix and the rest.
pub read_at-middle :
    (pre xs rest : List ℕ) (n off : ℕ)
    → length pre ≡ off
    → length xs ≡ n
    → read_at n off (pre ++ (xs ++ rest)) ≡ some xs
unfolding read_at
read_at-middle pre xs rest n off hp hx =
    rw (drop-append off pre (xs ++ rest) hp, take-append n xs rest hx)
      (ground (arith, length-append pre (xs ++ rest), length-append xs rest))

-- Writing behind a prefix keeps it and covers what stood there.
pub write_at-over :
    (buf pre junk : List ℕ) (off : ℕ)
    → length pre ≡ off
    → write_at buf off (pre ++ junk) ≡ pre ++ (buf ++ drop (length buf) junk)
unfolding write_at zeros
write_at-over buf pre junk off h =
    let short : off - length (pre ++ junk) ≡ 0 = omega (arith, length-append pre junk) in
    rw (
      short,
      append-nil,
      take-append off pre junk h,
      drop-append-add off (length buf) pre junk h,
      append_assoc,
    )

pub write_at-end :
    (buf file : List ℕ) (off : ℕ) → length file ≡ off → write_at buf off file ≡ file ++ buf
unfolding write_at zeros
write_at-end buf file off h =
    let short : off - length file ≡ 0 = omega arith in
    rw (
      short,
      append-nil,
      take-all off file (omega arith),
      drop-all (off + length buf) file (omega arith),
      append-nil,
    )

pub truncate-append : (pre rest : List ℕ) (n : ℕ) → length pre ≡ n → truncate n (pre ++ rest) ≡ pre
unfolding truncate zeros
truncate-append pre rest n h =
    let short : n - length (pre ++ rest) ≡ 0 = omega (arith, length-append pre rest) in
    rw (short, append-nil, take-append n pre rest h)
