-- ===== src/Tests/Caches.antt =====
-- Eviction from a cache of three segments.
use dripsql.Base.{◌≡◌, refl, [], ◌∷◌, codes, Text, pos, length, nat_eq}
use dripsql.Engine.SegCache.{SegCacheKey, SegmentCache, evict_except}
use dripsql.Engine.Evict.{trim, excess, IdsDistinct, evict_except-trim}

abbrev key : Text → SegCacheKey
key p = record { path = p; dv_path = [] }

abbrev cache : SegmentCache
cache = record {
  by_key = [];
  lru =
      record { id = 0; key = key (codes "a"); seg = 10 }
      ∷ record { id = 1; key = key (codes "b"); seg = 11 }
      ∷ record { id = 2; key = key (codes "c"); seg = 12 }
      ∷ [];
  closed = [];
  next_id = 3;
}

cache-IdsDistinct : IdsDistinct cache.lru
cache-IdsDistinct = ((refl, (refl, tt)), ((refl, tt), (tt, tt)))

evict_except-trim_example :
    (evict_except (pos 1) (key (codes "a") ∷ []) cache).lru
    ≡ trim (excess (length cache.lru) (pos 1)) (key (codes "a") ∷ []) cache.lru
evict_except-trim_example = evict_except-trim (pos 1) (key (codes "a") ∷ []) cache cache-IdsDistinct
