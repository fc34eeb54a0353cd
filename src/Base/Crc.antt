-- ===== src/Base/Crc.antt =====
-- hash/crc32's ChecksumIEEE, bit by bit over the reflected polynomial.
use Prim.Native.Nat.{ℕ, zero, suc, ◌/◌, ◌%◌, ◌^◌, ◌<◌, bit_xor}
use mathlib.Core.Path.{◌≡◌, refl}
use mathlib.Core.List.{List, [], ◌∷◌, foldl}
use native.Mathlib.Omega.{arith}
use dripsql.Base.Tests.{nat_beq, if◌then◌else◌}

crc_bits : ℕ → ℕ → ℕ
crc_bits zero c = c
crc_bits (suc k) c = crc_bits k (if nat_beq (c % 2) 1 then bit_xor (c / 2) 0xedb8_8320 else c / 2)

crc_byte : ℕ → ℕ → ℕ
unfolding crc_bits
crc_byte c b = crc_bits 8 (bit_xor c b)

-- A uint32.
unfoldable pub checksum_ieee : List ℕ → ℕ
unfolding crc_byte
checksum_ieee bs = bit_xor (foldl crc_byte 0xffff_ffff bs) 0xffff_ffff % 2 ^ 32

pub checksum_ieee-lt : (bs : List ℕ) → checksum_ieee bs < 2 ^ 32
unfolding checksum_ieee
checksum_ieee-lt bs = omega arith

-- The check value of the CRC-32 catalogue, for the text 123456789.
check_value : checksum_ieee (49 ∷ 50 ∷ 51 ∷ 52 ∷ 53 ∷ 54 ∷ 55 ∷ 56 ∷ 57 ∷ []) ≡ 0xcbf4_3926
unfolding checksum_ieee
check_value = refl
