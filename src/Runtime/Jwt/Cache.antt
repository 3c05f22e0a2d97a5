-- ===== src/Runtime/Jwt/Cache.antt =====
-- services/_runtime/jwt_service.py: what every operation on the cache of verified tokens keeps.
use Prim.Native.Nat.{◌/◌}
use cyber_security_alert_tri.Common.{
  ℕ, zero, suc, ◌-◌, ◌≤◌, ◌<◌, String, Option, none, some, [], ◌∷◌, ◌≡◌, refl, arith, length, ltb,
  leb, ◌==◌, if_both, if◌then◌else◌,
}
use cyber_security_alert_tri.Runtime.Jwt.{
  Cache, CacheEntry, cache_pop, cache_set, unexpired, insert_sorted, sort_by_expiry, drop_first,
  maybe_evict, pop_jti,
}

-- A predicate of every entry.
abbrev pub AllEntries : (CacheEntry → Type 0) → Cache → Type 0
AllEntries P [] = Unit
AllEntries P ((k, e) ∷ c) = P e × AllEntries P c

module _ (P : CacheEntry → Type 0) where
  pub pop-AllEntries : (k : String) (c : Cache) → AllEntries P c → AllEntries P (cache_pop k c)
  unfolding cache_pop
  pop-AllEntries k [] h = h
  pop-AllEntries k ((j, e) ∷ c) h =
      if_both (AllEntries P) (j == k) c ((j, e) ∷ cache_pop k c) h.1 (h.0, pop-AllEntries k c h.1)

  pub pop_jti-AllEntries :
      (k : Option String) (c : Cache) → AllEntries P c → AllEntries P (pop_jti k c)
  pop_jti-AllEntries none c h = h
  pop_jti-AllEntries (some k) c h = pop-AllEntries k c h

  pub set-AllEntries :
      (k : String) (v : CacheEntry) (c : Cache)
      → P v
      → AllEntries P c
      → AllEntries P (cache_set k v c)
  unfolding cache_set
  set-AllEntries k v [] p h = (p, tt)
  set-AllEntries k v ((j, e) ∷ c) p h =
      if_both (AllEntries P) (j == k) ((k, v) ∷ c) ((j, e) ∷ cache_set k v c) (p, h.1)
        (h.0, set-AllEntries k v c p h.1)

  pub unexpired-AllEntries : (now : ℕ) (c : Cache) → AllEntries P c → AllEntries P (unexpired now c)
  unfolding unexpired
  unexpired-AllEntries now [] h = h
  unexpired-AllEntries now ((k, e) ∷ c) h =
      if_both (AllEntries P) (leb e.expires_at now) (unexpired now c) ((k, e) ∷ unexpired now c)
        (unexpired-AllEntries now c h.1) (h.0, unexpired-AllEntries now c h.1)

  insert-AllEntries :
      (k : String) (e : CacheEntry) (c : Cache)
      → P e
      → AllEntries P c
      → AllEntries P (insert_sorted (k, e) c)
  unfolding insert_sorted
  insert-AllEntries k e [] p h = (p, tt)
  insert-AllEntries k e ((j, f) ∷ c) p h =
      if_both (AllEntries P) (leb e.expires_at f.expires_at) ((k, e) ∷ (j, f) ∷ c)
        ((j, f) ∷ insert_sorted (k, e) c) (p, h) (h.0, insert-AllEntries k e c p h.1)

  sort-AllEntries : (c : Cache) → AllEntries P c → AllEntries P (sort_by_expiry c)
  unfolding sort_by_expiry
  sort-AllEntries [] h = h
  sort-AllEntries ((k, e) ∷ c) h =
      insert-AllEntries k e (sort_by_expiry c) h.0 (sort-AllEntries c h.1)

  drop-AllEntries : (n : ℕ) (c : Cache) → AllEntries P c → AllEntries P (drop_first n c)
  unfolding drop_first
  drop-AllEntries zero c h = h
  drop-AllEntries (suc n) [] h = h
  drop-AllEntries (suc n) ((k, e) ∷ c) h = drop-AllEntries n c h.1

  pub evict-AllEntries :
      (m now : ℕ) (c : Cache) → AllEntries P c → AllEntries P (maybe_evict m now c)
  unfolding maybe_evict
  evict-AllEntries m now c h =
      let live = unexpired now c in
      let kept = unexpired-AllEntries now c h in
      if_both (AllEntries P) (ltb (length c) m) c
        (if leb m (length live) then drop_first (length live / 4) (sort_by_expiry live) else live) h
        (if_both (AllEntries P) (leb m (length live))
          (drop_first (length live / 4) (sort_by_expiry live)) live
          (drop-AllEntries (length live / 4) (sort_by_expiry live) (sort-AllEntries live kept))
          kept)

length-insert_sorted :
    (x : String × CacheEntry) (c : Cache) → length (insert_sorted x c) ≡ suc (length c)
unfolding insert_sorted
length-insert_sorted (k, e) [] = refl
length-insert_sorted (k, e) ((j, f) ∷ c) = ground (arith, length-insert_sorted (k, e) c)

length-sort : (c : Cache) → length (sort_by_expiry c) ≡ length c
unfolding sort_by_expiry
length-sort [] = refl
length-sort (x ∷ c) = omega (arith, length-insert_sorted x (sort_by_expiry c), length-sort c)

length-drop_first : (n : ℕ) (c : Cache) → length (drop_first n c) ≡ length c - n
unfolding drop_first
length-drop_first zero c = omega arith
length-drop_first (suc n) [] = omega arith
length-drop_first (suc n) (x ∷ c) = omega (arith, length-drop_first n c)

length-unexpired-le : (now : ℕ) (c : Cache) → length (unexpired now c) ≤ length c
unfolding unexpired
length-unexpired-le now [] = omega arith
length-unexpired-le now ((k, e) ∷ c) = ground (arith, length-unexpired-le now c)

-- After an eviction there is room for one more entry.
pub length-maybe_evict-lt :
    (m now : ℕ) (c : Cache) → 4 ≤ m → length c ≤ m → length (maybe_evict m now c) < m
unfolding maybe_evict
length-maybe_evict-lt m now c four h =
    let live = unexpired now c in
    ground (
      arith,
      length-unexpired-le now c,
      length-drop_first (length live / 4) (sort_by_expiry live),
      length-sort live,
    )

pub length-cache_set-le :
    (k : String) (v : CacheEntry) (c : Cache) → length (cache_set k v c) ≤ suc (length c)
unfolding cache_set
length-cache_set-le k v [] = omega arith
length-cache_set-le k v ((j, e) ∷ c) = ground (arith, length-cache_set-le k v c)

length-cache_pop-le : (k : String) (c : Cache) → length (cache_pop k c) ≤ length c
unfolding cache_pop
length-cache_pop-le k [] = omega arith
length-cache_pop-le k ((j, e) ∷ c) = ground (arith, length-cache_pop-le k c)

pub length-pop_jti-le : (k : Option String) (c : Cache) → length (pop_jti k c) ≤ length c
length-pop_jti-le none c = omega arith
length-pop_jti-le (some k) c = length-cache_pop-le k c
