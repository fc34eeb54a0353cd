-- ===== src/Vector/Selection.antt =====
-- internal/vector/selection.go: the selection of a batch's rows, NewSelectionMask, SetRange,
-- NewSelectionRange and Limit. A word is its 64 bits, the lowest first, and the words of a mask are
-- one list of bits, 64 for each.
use dripsql.Base.{
  ℕ, zero, suc, ◌+◌, ◌-◌, ◌*◌, ◌/◌, ◌%◌, ltb, leb, if◌then◌else◌, Bool, true, false, ◌&&◌, ◌||◌,
  Option, none, some, List, [], ◌∷◌, ◌++◌, length, take, drop, replicate, nat_beq,
}

-- ^uint64(0)
abbrev pub ones : List Bool
ones = replicate 64 true

unfoldable pub shift_left : ℕ → List Bool → List Bool
shift_left k w = take 64 (replicate k false ++ w)

unfoldable pub shift_right : ℕ → List Bool → List Bool
shift_right k w = drop k w ++ replicate k false

unfoldable pub and_bits : List Bool → List Bool → List Bool
and_bits [] ws = []
and_bits (v ∷ vs) [] = []
and_bits (v ∷ vs) (w ∷ ws) = (v && w) ∷ and_bits vs ws

-- The word w or-ed to the bits from a place on.
unfoldable pub or_at : ℕ → List Bool → List Bool → List Bool
or_at k w [] = []
or_at zero [] (b ∷ bs) = b ∷ bs
or_at zero (v ∷ w) (b ∷ bs) = (b || v) ∷ or_at zero w bs
or_at (suc k) w (b ∷ bs) = b ∷ or_at k w bs

-- The word w put over the bits from a place on.
unfoldable pub put_at : ℕ → List Bool → List Bool → List Bool
put_at k w [] = []
put_at zero [] (b ∷ bs) = b ∷ bs
put_at zero (v ∷ w) (b ∷ bs) = v ∷ put_at zero w bs
put_at (suc k) w (b ∷ bs) = b ∷ put_at k w bs

pub record SelectionMask : Type 0 where
  pub bits : List Bool
  pub rows : ℕ
  pub all_set : Bool

-- ValidityWords
unfoldable pub validity_words : ℕ → ℕ
validity_words rows = (rows + 63) / 64

unfoldable pub new_selection_mask : ℕ → SelectionMask
unfolding validity_words
new_selection_mask rows = record {
  bits = replicate (64 * validity_words rows) false;
  rows = rows;
  all_set = nat_beq rows 0;
}

-- So many words from the word wi on are filled.
unfoldable pub fill_words : ℕ → ℕ → List Bool → List Bool
unfolding put_at
fill_words zero wi bits = bits
fill_words (suc n) wi bits = fill_words n (suc wi) (put_at (64 * wi) ones bits)

-- The words of a range that is not empty.
unfoldable pub set_words : ℕ → ℕ → List Bool → List Bool
unfolding shift_left shift_right and_bits or_at fill_words
set_words start end bits =
    let first_word = start / 64 in
    let last_word = (end - 1) / 64 in
    let first_bit = start % 64 in
    let last_bit = (end - 1) % 64 in
    let from_first = shift_left first_bit ones in
    let to_last = shift_right (63 - last_bit) ones in
    if nat_beq first_word last_word
    then or_at (64 * first_word) (and_bits from_first to_last) bits
    else or_at (64 * last_word) to_last (
        fill_words (last_word - (first_word + 1)) (first_word + 1)
          (or_at (64 * first_word) from_first bits))

unfoldable pub set_range : ℕ → ℕ → SelectionMask → SelectionMask
unfolding set_words
set_range start end mask =
    let last = if ltb mask.rows end then mask.rows else end in
    if leb last start then mask else record {
      bits = set_words start last mask.bits;
      rows = mask.rows;
      all_set = if nat_beq start 0 && nat_beq last mask.rows then mask.all_set else false;
    }

unfoldable pub new_selection_range : ℕ → ℕ → ℕ → SelectionMask
unfolding new_selection_mask set_range
new_selection_range rows start end = set_range start end (new_selection_mask rows)

-- What Limit's callback keeps.
pub record Counts : Type 0 where
  pub skip : ℕ
  pub seen : ℕ
  pub sent : ℕ

-- take is none where the source has a negative number.
unfoldable pub is_full : Option ℕ → ℕ → Bool
is_full none sent = false
is_full (some take) sent = leb take sent

-- The callback on one set row, and whether it sets the row.
unfoldable pub limit_row : Option ℕ → Counts → Bool × Counts
limit_row take c =
    if ltb 0 c.skip
    then (false, record { skip = c.skip - 1; seen = suc c.seen; sent = c.sent })
    else if is_full take c.sent
    then (false, c)
    else (true, record { skip = c.skip; seen = suc c.seen; sent = suc c.sent })

unfoldable pub limit_loop : Option ℕ → List Bool → Counts → List Bool × Counts
limit_loop take [] c = ([], c)
limit_loop take (false ∷ bs) c = let rest = limit_loop take bs c in (false ∷ rest.0, rest.1)
limit_loop take (true ∷ bs) c =
    let turn = limit_row take c in let rest = limit_loop take bs turn.1 in (turn.0 ∷ rest.0, rest.1)

-- The mask, and the counts seen and sent. IterSet visits the set rows in order and stops at rows;
-- the new mask is of the caller's rows.
unfoldable pub limit : ℕ → ℕ → Option ℕ → SelectionMask → SelectionMask × Counts
unfolding limit_loop new_selection_mask
limit rows skip take_left mask =
    let r =
      limit_loop take_left (take mask.rows mask.bits) record { skip = skip; seen = 0; sent = 0 } in
    (
      record {
        bits = r.0 ++ drop (length r.0) (new_selection_mask rows).bits;
        rows = rows;
        all_set = nat_beq rows 0;
      },
      r.1,
    )
