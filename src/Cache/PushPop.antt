-- ===== src/Cache/PushPop.antt =====
-- lib/cache.c: the stack of saved map entries.
use autofs.Prelude.{Bool, Option, ◌≡◌, arith}
use autofs.Text.{Bytes}
use autofs.Cache.{Mapent}
use autofs.Cache.Write.{che_ok, cache_push_mapent, cache_pop_mapent}

-- What was pushed away comes back: a pop after a successful push of any map entry, also an empty one,
-- succeeds and restores the whole entry.
pub pop-push :
    (alloc : Bool) (mapent : Option Bytes) (me : Mapent)
    → (cache_push_mapent alloc mapent me).0 ≡ che_ok
    → cache_pop_mapent (cache_push_mapent alloc mapent me).1 ≡ (che_ok, me)
unfolding cache_push_mapent cache_pop_mapent
pop-push alloc mapent me h = ground arith
