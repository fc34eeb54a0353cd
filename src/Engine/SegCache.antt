-- ===== src/Engine/SegCache.antt =====
-- internal/engine/segcache.go: the cache of open segments, least recently used first.
use dripsql.Base.{
  ℕ, zero, suc, ◌+◌, ◌≡◌, ◌↔◌, Bool, true, false, ◌&&◌, ◌||◌, Option, none, some, List, [], ◌∷◌,
  ◌++◌, map, Text, text_eq, nat_eq, ◌==◌, Eq, arith, text_beq_iff, if◌then◌else◌, ltb, ℤ, pos,
  negsuc, length,
}
use dripsql.Base.Dict.{Dict, get, put, remove}

pub record SegCacheKey : Type 0 where
  pub path : Text
  pub dv_path : Text

abbrev pub key_beq : SegCacheKey → SegCacheKey → Bool
key_beq a b = a.path == b.path && a.dv_path == b.dv_path

pub key_beq_iff : (a b : SegCacheKey) → (key_beq a b ≡ true) ↔ (a ≡ b)
key_beq_iff a b = ground (arith, text_beq_iff a.path b.path, text_beq_iff a.dv_path b.dv_path)

instance abbrev pub key_eq : Eq SegCacheKey
key_eq = record { beq = key_beq; beq_iff = key_beq_iff }

-- An element of the list: its identity, the key and the segment's handle.
pub record SegCacheEntry : Type 0 where
  pub id : ℕ
  pub key : SegCacheKey
  pub seg : ℕ

-- `closed` is the handles that were closed, in order; `next_id` makes the next element's identity.
pub record SegmentCache : Type 0 where
  pub by_key : Dict SegCacheKey SegCacheEntry
  pub lru : List SegCacheEntry
  pub closed : List ℕ
  pub next_id : ℕ

unfoldable pub new_segment_cache : SegmentCache
new_segment_cache = record { by_key = []; lru = []; closed = []; next_id = 0 }

-- container/list's Remove.
unfoldable pub remove_elem : ℕ → List SegCacheEntry → List SegCacheEntry
remove_elem id [] = []
remove_elem id (e ∷ es) = let rest = remove_elem id es in if e.id == id then es else e ∷ rest

-- MoveToBack of an element of the list.
unfoldable pub move_to_back : SegCacheEntry → List SegCacheEntry → List SegCacheEntry
unfolding remove_elem
move_to_back e lru = remove_elem e.id lru ++ e ∷ []

unfoldable pub touch : SegCacheKey → SegmentCache → Option ℕ × SegmentCache
unfolding move_to_back
touch key c = elim (get key c.by_key) [
  | none ↦ (none, c)
  | some e ↦ (some e.seg, record c { lru = move_to_back e c.lru })
]

unfoldable pub add : SegCacheKey → ℕ → SegmentCache → SegmentCache
add key seg c =
    let e : SegCacheEntry = record { id = c.next_id; key = key; seg = seg } in
    record c { by_key = put key e c.by_key; lru = c.lru ++ e ∷ []; next_id = c.next_id + 1 }

-- Close the segment, take the element from the list and the key from the map.
unfoldable pub drop_entry : SegCacheEntry → SegmentCache → SegmentCache
unfolding remove_elem
drop_entry e c = record c {
  by_key = remove e.key c.by_key;
  lru = remove_elem e.id c.lru;
  closed = c.closed ++ e.seg ∷ [];
}

unfoldable pub mem_key : SegCacheKey → List SegCacheKey → Bool
mem_key k [] = false
mem_key k (j ∷ js) = j == k || mem_key k js

-- The first entry from the front that the working set does not use.
unfoldable pub first_cold : List SegCacheKey → List SegCacheEntry → Option SegCacheEntry
unfolding mem_key
first_cold working [] = none
first_cold working (e ∷ es) = if mem_key e.key working then first_cold working es else some e

abbrev pub over : ℕ → ℤ → Bool
over n (pos limit) = ltb limit n
over n (negsuc limit) = true

-- The loop; each turn but the last takes an entry away, so as many turns as entries are enough.
unfoldable pub evict_loop : ℕ → ℤ → List SegCacheKey → SegmentCache → SegmentCache
unfolding first_cold drop_entry
evict_loop zero limit working c = c
evict_loop (suc fuel) limit working c =
    if over (length c.lru) limit
    then elim (first_cold working c.lru) [
      | none ↦ c
      | some e ↦ evict_loop fuel limit working (drop_entry e c)
    ]
    else c

unfoldable pub evict_except : ℤ → List SegCacheKey → SegmentCache → SegmentCache
unfolding evict_loop
evict_except limit working c = evict_loop (length c.lru) limit working c

-- The map's entries in the order of its iteration, `entries`.
remove_path_loop : Text → List (SegCacheKey × SegCacheEntry) → SegmentCache → SegmentCache
unfolding drop_entry
remove_path_loop path [] c = c
remove_path_loop path ((k, e) ∷ entries) c = remove_path_loop path entries (
    if k.path == path
    then record c {
      by_key = remove k c.by_key;
      lru = remove_elem e.id c.lru;
      closed = c.closed ++ e.seg ∷ [];
    }
    else c)

unfoldable pub remove_by_path : Text → SegmentCache → SegmentCache
unfolding remove_path_loop
remove_by_path path c = remove_path_loop path c.by_key c

unfoldable pub len : SegmentCache → ℕ
len c = length c.lru

-- Every segment is closed; `fails` is what Close answers for a handle, and the result is the first
-- handle whose Close failed.
close_loop : (ℕ → Bool) → Option ℕ → List SegCacheEntry → Option ℕ
close_loop fails first [] = first
close_loop fails none (e ∷ es) = close_loop fails (if fails e.seg then some e.seg else none) es
close_loop fails (some f) (e ∷ es) = close_loop fails (some f) es

unfoldable pub close : (ℕ → Bool) → SegmentCache → Option ℕ × SegmentCache
unfolding close_loop
close fails c = (
  close_loop fails none c.lru,
  record c { by_key = []; lru = []; closed = c.closed ++ map (λ (e : SegCacheEntry). e.seg) c.lru },
)
