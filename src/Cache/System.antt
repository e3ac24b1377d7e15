-- ===== src/Cache/System.antt =====
-- lib/cache.c: the caches that the operations reach.
use autofs.Prelude.{ℕ, ◌<◌, Bool, Option, some, ◌≡◌}
use autofs.Text.{Bytes}
use autofs.Cache.{Mapent, Cache}
use autofs.Cache.Write.{Che, cache_add, cache_init, cache_clean_null_cache}
use autofs.Cache.Delete.{cache_delete, cache_set_ino_index}
use autofs.Cache.Update.{
  cache_update, cache_update_offset, cache_lookup_negative, cache_update_negative,
}
use autofs.Cache.Steps.{
  cache_add-Kept, cache_delete-IsCache, cache_set_ino_index-IsCache, cache_clean_null_cache-IsCache,
  cache_init-IsCache,
}
use autofs.Cache.Updates.{
  cache_update-Kept, cache_update_offset-Kept, cache_update_negative-AllOf,
  cache_lookup_negative-IsCache,
}
use autofs.Cache.Keeps.{AllOf}
use autofs.Cache.Walk.{IsCache}

-- What the operations may do to a cache, where they end.
pub data Change : Cache → Cache → Type 0 where
  add :
      (alloc : Bool) (addr : ℕ) (mc : Cache) (ms : ℕ) (key : Bytes) (mapent : Option Bytes)
      (age : ℕ) (r : Che × Cache)
      → cache_add alloc addr mc ms key mapent age ≡ some r
      → Change mc r.1
  update :
      (alloc : Bool) (addr : ℕ) (mc : Cache) (ms : ℕ) (key : Bytes) (mapent : Option Bytes)
      (age : ℕ) (r : Che × Cache)
      → cache_update alloc addr mc ms key mapent age ≡ some r
      → Change mc r.1
  update_offset :
      (alloc : Bool) (addr : ℕ) (mc : Cache) (mkey key mapent : Bytes) (age : ℕ) (r : Che × Cache)
      → cache_update_offset alloc addr mc mkey key mapent age ≡ some r
      → Change mc r.1
  update_negative :
      (alloc : Bool) (addr now : ℕ) (mc : Cache) (ms : ℕ) (key : Bytes) (timeout : ℕ) (mc' : Cache)
      → cache_update_negative alloc addr now mc ms key timeout ≡ some mc'
      → Change mc mc'
  lookup_negative :
      (now : ℕ) (mc : Cache) (me : Mapent) (key : Bytes)
      → Change mc (cache_lookup_negative now mc me key).1
  delete : (mc : Cache) (key : Bytes) → Change mc (cache_delete mc key).1
  set_ino : (mc : Cache) (me : Mapent) → Change mc (cache_set_ino_index mc me)
  clean : (mc : Cache) → Change mc (cache_clean_null_cache mc)

pub data Reach : Cache → Type 0 where
  start : (size : ℕ) → 0 < size → Reach (cache_init size)
  next : {mc mc' : Cache} → Reach mc → Change mc mc' → Reach mc'

of_some : {A : Type 0} (P : A → Type 0) (o : Option A) (x : A) → AllOf P o → o ≡ some x → P x
of_some P o x h e = rw e at h

Change-IsCache : {mc mc' : Cache} → Change mc mc' → IsCache mc → IsCache mc'
Change-IsCache (add al a mc ms k m g r e) h =
    of_some (λ (r : Che × Cache). IsCache r.1) _ r (cache_add-Kept al a mc ms k m g h) e
Change-IsCache (update al a mc ms k m g r e) h =
    of_some (λ (r : Che × Cache). IsCache r.1) _ r (cache_update-Kept al a mc ms k m g h) e
Change-IsCache (update_offset al a mc mk k m g r e) h =
    of_some (λ (r : Che × Cache). IsCache r.1) _ r (cache_update_offset-Kept al a mc mk k m g h) e
Change-IsCache (update_negative al a n mc ms k t mc' e) h =
    of_some IsCache _ mc' (cache_update_negative-AllOf al a n mc ms k t h) e
Change-IsCache (lookup_negative n mc me k) h = cache_lookup_negative-IsCache n mc me k h
Change-IsCache (delete mc k) h = cache_delete-IsCache mc k h
Change-IsCache (set_ino mc me) h = cache_set_ino_index-IsCache mc me h
Change-IsCache (clean mc) h = cache_clean_null_cache-IsCache mc h

-- From an empty cache of at least one chain, whatever is added, updated, deleted, indexed or cleaned,
-- the cache has as many chains as its size says and every entry stands on the chain of its key.
pub Reach-IsCache : {mc : Cache} → Reach mc → IsCache mc
Reach-IsCache (start size h) = cache_init-IsCache size h
Reach-IsCache (next r c) = Change-IsCache c (Reach-IsCache r)
