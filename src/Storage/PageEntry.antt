-- ===== src/Storage/PageEntry.antt =====
-- Page entries and the footer's suffix: what is written is read back.
use mathlib.Core.List.{append_assoc}
use dripsql.Base.{
  ℕ, zero, suc, ◌+◌, ◌^◌, ◌<◌, ◌≤◌, ◌≡◌, refl, true, false, Option, none, some, List, [], ◌∷◌, ◌++◌,
  arith, ltb, length, take, drop, take-append, drop-append, drop-append-add, length-append, le→ltb,
  text_eq, text_beq,
}
use dripsql.Base.Bytes.{le_bytes, length-le_bytes, from_le-le_bytes}
use dripsql.Storage.Wire.{
  Page, magic, page_bytes, write_page, decode_page_entry, word_at, write_footer_suffix,
  read_footer_suffix,
}

abbrev pub and_then {ℓ κ} : {A : Type ℓ} {B : Type κ} → Option A → (A → Option B) → Option B
and_then none f = none
and_then (some a) f = f a

-- The fields fit their Go types.
pub record IsPage (p : Page) : Type 0 where
  pub payload_offset : p.payload_offset < 256 ^ 8
  pub payload_length : p.payload_length < 256 ^ 8
  pub row_start : p.row_start < 256 ^ 4
  pub rows : p.rows < 256 ^ 4
  pub null_count : p.null_count < 256 ^ 4
  pub kind : p.kind < 256 ^ 1
  pub encoding : p.encoding < 256 ^ 1
  pub flags : p.flags < 256 ^ 1
  pub reserved : p.reserved < 256 ^ 1

word_at-here : (n v : ℕ) (rest : List ℕ) → v < 256 ^ n → word_at n 0 (le_bytes n v ++ rest) ≡ v
unfolding word_at
word_at-here n v rest h =
    rw (take-append n (le_bytes n v) rest (length-le_bytes n v)) (from_le-le_bytes n v h)

word_at-skip :
    (n m off v : ℕ) (rest : List ℕ)
    → word_at n (m + off) (le_bytes m v ++ rest) ≡ word_at n off rest
unfolding word_at
word_at-skip n m off v rest = rw (drop-append-add m off (le_bytes m v) rest (length-le_bytes m v))

-- Words of given widths one behind the other, and the offset of each.
abbrev words : List (ℕ × ℕ) → List ℕ → List ℕ
words [] rest = rest
words ((n, v) ∷ fs) rest = le_bytes n v ++ words fs rest

abbrev offset : List (ℕ × ℕ) → ℕ → ℕ
offset [] k = 0
offset ((n, v) ∷ fs) zero = 0
offset ((n, v) ∷ fs) (suc k) = n + offset fs k

abbrev IsWord : List (ℕ × ℕ) → ℕ → ℕ → ℕ → Type 0
IsWord [] k n v = ⊥
IsWord ((m, w) ∷ fs) zero n v = (m ≡ n) × (w ≡ v)
IsWord ((m, w) ∷ fs) (suc k) n v = IsWord fs k n v

word_at-words :
    (fs : List (ℕ × ℕ)) (k n v : ℕ) (rest : List ℕ)
    → IsWord fs k n v
    → v < 256 ^ n
    → word_at n (offset fs k) (words fs rest) ≡ v
word_at-words [] k n v rest here fits = elim here [ ]
word_at-words ((m, w) ∷ fs) zero n v rest here fits =
    rw (here.0, here.1) (word_at-here n v (words fs rest) fits)
word_at-words ((m, w) ∷ fs) (suc k) n v rest here fits =
    rw (word_at-skip n m (offset fs k) w (words fs rest)) (word_at-words fs k n v rest here fits)

abbrev fields : Page → List (ℕ × ℕ)
fields p =
    (8, p.payload_offset)
    ∷ (8, p.payload_length)
    ∷ (4, p.row_start)
    ∷ (4, p.rows)
    ∷ (4, p.null_count)
    ∷ (1, p.kind)
    ∷ (1, p.encoding)
    ∷ (1, p.flags)
    ∷ (1, p.reserved)
    ∷ []

page_bytes-words : (p : Page) (rest : List ℕ) → page_bytes p ++ rest ≡ words (fields p) rest
unfolding page_bytes
page_bytes-words p rest = simp append_assoc

length-words : (fs : List (ℕ × ℕ)) (rest : List ℕ) → length rest ≤ length (words fs rest)
length-words [] rest = omega arith
length-words ((n, v) ∷ fs) rest =
    omega (arith, length-words fs rest, length-append (le_bytes n v) (words fs rest))

long : (p : Page) (rest : List ℕ) → ltb (length (words (fields p) rest)) 32 ≡ false
long p rest = simp (length-append, length-le_bytes) (ground arith)

decode-words :
    (p : Page) (rest : List ℕ) → IsPage p → decode_page_entry (words (fields p) rest) ≡ some p
unfolding decode_page_entry
decode-words p rest h =
    rw
      (
        long p rest,
        word_at-words (fields p) 0 8 p.payload_offset rest (refl, refl) h.payload_offset,
        word_at-words (fields p) 1 8 p.payload_length rest (refl, refl) h.payload_length,
        word_at-words (fields p) 2 4 p.row_start rest (refl, refl) h.row_start,
        word_at-words (fields p) 3 4 p.rows rest (refl, refl) h.rows,
        word_at-words (fields p) 4 4 p.null_count rest (refl, refl) h.null_count,
        word_at-words (fields p) 5 1 p.kind rest (refl, refl) h.kind,
        word_at-words (fields p) 6 1 p.encoding rest (refl, refl) h.encoding,
        word_at-words (fields p) 7 1 p.flags rest (refl, refl) h.flags,
        word_at-words (fields p) 8 1 p.reserved rest (refl, refl) h.reserved,
      )
      refl

-- A page entry that is written at the start of a slice, if the slice is long enough and the fields
-- fit their types, is read back from it.
pub decode_page_entry-write_page :
    (dst : List ℕ) (p : Page)
    → 32 ≤ length dst
    → IsPage p
    → and_then (write_page dst p) decode_page_entry ≡ some p
unfolding write_page
decode_page_entry-write_page dst p len h =
    rw (le→ltb (length dst) 32 len, page_bytes-words p (drop 32 dst))
      (decode-words p (drop 32 dst) h)

abbrev suffix_words : ℕ → ℕ → List (ℕ × ℕ)
suffix_words footer sidecar = (8, sidecar) ∷ (8, footer) ∷ []

magic_at :
    (footer sidecar : ℕ) (rest : List ℕ)
    → take 8 (drop 16 (words (suffix_words footer sidecar) (magic ++ rest))) ≡ magic
magic_at footer sidecar rest =
    rw
      (
        drop-append-add 8 8 (le_bytes 8 sidecar) (le_bytes 8 footer ++ (magic ++ rest))
            (length-le_bytes 8 sidecar),
        drop-append 8 (le_bytes 8 footer) (magic ++ rest) (length-le_bytes 8 footer),
      )
      refl

suffix_long :
    (footer sidecar : ℕ) (rest : List ℕ)
    → ltb (length (words (suffix_words footer sidecar) (magic ++ rest))) 24 ≡ false
suffix_long footer sidecar rest = simp (length-append, length-le_bytes) (ground arith)

read-suffix_words :
    (footer sidecar : ℕ) (rest : List ℕ)
    → footer < 2 ^ 64
    → sidecar < 2 ^ 64
    → read_footer_suffix (words (suffix_words footer sidecar) (magic ++ rest))
      ≡ some (record { footer_length = footer; sidecar_length = sidecar; magic_ok = true })
unfolding read_footer_suffix text_beq
read-suffix_words footer sidecar rest hf hs =
    let all = magic ++ rest in
    rw
      (
        suffix_long footer sidecar rest,
        word_at-words (suffix_words footer sidecar) 0 8 sidecar all (refl, refl) hs,
        word_at-words (suffix_words footer sidecar) 1 8 footer all (refl, refl) hf,
        magic_at footer sidecar rest,
      )
      refl

-- The suffix of the footer that is written is read back, with its magic.
pub read-write_footer_suffix :
    (dst : List ℕ) (footer sidecar : ℕ)
    → 24 ≤ length dst
    → footer < 2 ^ 64
    → sidecar < 2 ^ 64
    → and_then (write_footer_suffix dst footer sidecar) read_footer_suffix
      ≡ some (record { footer_length = footer; sidecar_length = sidecar; magic_ok = true })
unfolding write_footer_suffix
read-write_footer_suffix dst footer sidecar len hf hs =
    rw (le→ltb (length dst) 24 len) (read-suffix_words footer sidecar (drop 24 dst) hf hs)
