-- ===== src/Cache/Delete.antt =====
-- lib/cache.c: `cache_delete` and the index of inodes.
use autofs.Prelude.{ℕ, Bool, true, false, not, List, [], ◌∷◌, ◌==◌, if◌then◌else◌, modify}
use autofs.Text.{Bytes, equal, hash}
use autofs.Cache.{Mapent, Cache, is_mm, chain_of, ino_hash}
use autofs.Cache.Write.{Che, che_fail, che_ok, set_chain}

-- The first loop of `cache_delete`, which starts behind the head of the chain: does it come to the
-- end, what is left, and the addresses that were freed.
unfoldable pub delete_loop : Bytes → List Mapent → Bool × List Mapent × List ℕ
unfolding is_mm
delete_loop key [] = (true, [], [])
delete_loop key (me ∷ next) =
    let rest = delete_loop key next in
    if not (equal key me.key)
    then (rest.0, me ∷ rest.1, rest.2)
    else if is_mm me
    then (false, me ∷ next, [])
    else (rest.0, rest.1, me.addr ∷ rest.2)

-- `cache_delete` on the chain of the key.
unfoldable pub delete_chain : Bytes → List Mapent → Che × List Mapent × List ℕ
unfolding delete_loop is_mm
delete_chain key [] = (che_ok, [], [])
delete_chain key (me ∷ next) =
    let rest = delete_loop key next in
    if not rest.0
    then (che_fail, me ∷ rest.1, rest.2)
    else if not (equal key me.key)
    then (che_ok, me ∷ rest.1, rest.2)
    else if is_mm me
    then (che_fail, me ∷ rest.1, rest.2)
    else (che_ok, rest.1, me.addr ∷ rest.2)

is_one_of : ℕ → List ℕ → Bool
is_one_of a [] = false
is_one_of a (b ∷ rest) = if a == b then true else is_one_of a rest

-- `list_del(&me->ino_index)` of the entries at the addresses.
unfoldable pub unlink_ino : List ℕ → List ℕ → List ℕ
unfolding is_one_of
unlink_ino gone [] = []
unlink_ino gone (a ∷ rest) =
    if is_one_of a gone then unlink_ino gone rest else a ∷ unlink_ino gone rest

unfoldable pub unlink_all : List ℕ → List (List ℕ) → List (List ℕ)
unfolding unlink_ino
unlink_all gone [] = []
unlink_all gone (l ∷ rest) = unlink_ino gone l ∷ unlink_all gone rest

unfoldable pub cache_delete : Cache → Bytes → Che × Cache
unfolding delete_chain unlink_all
cache_delete mc key =
    let (ret, c, gone) = delete_chain key (chain_of key mc) in
    (ret, record (set_chain (hash key mc.size) c mc) { ino_index = unlink_all gone mc.ino_index })

-- `cache_set_ino_index`
unfoldable pub cache_set_ino_index : Cache → Mapent → Cache
unfolding unlink_all ino_hash
cache_set_ino_index mc me = record mc {
  ino_index =
      modify (λ l. me.addr ∷ l) (ino_hash me.dev me.ino mc.size)
        (unlink_all (me.addr ∷ []) mc.ino_index);
}
