-- ===== src/Exec/Limit.antt =====
-- internal/exec/limit.go: LIMIT and OFFSET over the batches of a source. The source is the list of the
-- batches that it still gives, and does not fail; the operator is open.
use dripsql.Base.{
  ℕ, ◌+◌, ◌-◌, min, ltb, leb, if◌then◌else◌, Bool, false, ◌||◌, Option, none, some, List, [], ◌∷◌,
  length, nat_beq,
}
use dripsql.Vector.Selection.{SelectionMask, new_selection_range, limit}

-- vector.Batch: its rows, of which there are Len, and Sel, which is none where it is nil.
pub record Batch {ℓ} (A : Type ℓ) : Type ℓ where
  pub rows : List A
  pub sel : Option SelectionMask

-- n is none where N is negative, which is no limit; a negative offset is as 0.
pub record LimitOp : Type 0 where
  pub n : Option ℕ
  pub offset : ℕ
  pub seen : ℕ
  pub sent : ℕ

unfoldable pub is_done : Option ℕ → ℕ → Bool
is_done none sent = false
is_done (some n) sent = nat_beq n 0 || leb n sent

unfoldable pub limit_done : LimitOp → Bool
limit_done l = is_done l.n l.sent

unfoldable pub left_of : Option ℕ → ℕ → Option ℕ
left_of none sent = none
left_of (some n) sent = if ltb 0 n then some (n - sent) else none

-- Next stops first where l is done, so that sent is below a positive N.
unfoldable pub left_to_send : LimitOp → Option ℕ
left_to_send l = left_of l.n l.sent

unfoldable pub passed : ℕ → ℕ → LimitOp → LimitOp
passed seen sent l = record {
  n = l.n;
  offset = l.offset;
  seen = l.seen + seen;
  sent = l.sent + sent;
}

unfoldable pub at_most : Option ℕ → ℕ → ℕ
at_most none rows = rows
at_most (some take) rows = min rows take

-- What Next does with one batch of the source.
pub data Turn {ℓ} (A : Type ℓ) : Type ℓ where
  emit : Batch A → LimitOp → Turn A
  pass : LimitOp → Turn A
  bad_selection : Turn A

-- What Next returns: a batch with the operator and the source after it, or none, or an error.
pub data Answer {ℓ} (A : Type ℓ) : Type ℓ where
  answered : Batch A → LimitOp → List (Batch A) → Answer A
  exhausted : Answer A
  failed : Answer A

module _ {ℓ} {A : Type ℓ} where
  unfoldable pub set_sel : SelectionMask → Batch A → Option (Batch A)
  set_sel mask b =
      if nat_beq mask.rows (length b.rows)
      then some record { rows = b.rows; sel = some mask }
      else none

  unfoldable pub pass_or : LimitOp → Option (Batch A) → Turn A
  pass_or l none = pass l
  pass_or l (some out) = emit out l

  unfoldable pub limit_all_rows : LimitOp → Batch A → Turn A
  limit_all_rows l b =
      let rows = length b.rows in
      let start = l.offset - l.seen in
      let take = at_most (left_to_send l) (rows - start) in
      if leb rows start || nat_beq take 0
      then pass (passed rows 0 l)
      else pass_or (passed (start + take) take l)
          (set_sel (new_selection_range rows start (start + take)) b)

  unfoldable pub bad_or : LimitOp → Option (Batch A) → Turn A
  bad_or l none = bad_selection
  bad_or l (some out) = emit out l

  unfoldable pub limit_selected_rows : LimitOp → SelectionMask → Batch A → Turn A
  limit_selected_rows l mask b =
      let r = limit (length b.rows) (l.offset - l.seen) (left_to_send l) mask in
      let l' = passed r.1.seen r.1.sent l in
      if nat_beq r.1.sent 0 then pass l' else bad_or l' (set_sel r.0 b)

  unfoldable pub limit_batch : LimitOp → Option SelectionMask → Batch A → Turn A
  limit_batch l none b = limit_all_rows l b
  limit_batch l (some mask) b =
      if mask.all_set then limit_all_rows l b else limit_selected_rows l mask b

  unfoldable pub after_turn : Turn A → List (Batch A) → (LimitOp → Answer A) → Answer A
  after_turn (emit out l) bs loop = answered out l bs
  after_turn (pass l) bs loop = if limit_done l then exhausted else loop l
  after_turn bad_selection bs loop = failed

  -- The loop of Next over the source.
  unfoldable pub next_loop : LimitOp → List (Batch A) → Answer A
  next_loop l [] = exhausted
  next_loop l (b ∷ bs) =
      if nat_beq (length b.rows) 0
      then next_loop l bs
      else after_turn (limit_batch l b.sel b) bs (λ l'. next_loop l' bs)

  unfoldable pub next_batch : LimitOp → List (Batch A) → Answer A
  next_batch l bs = if limit_done l then exhausted else next_loop l bs
