-- ===== src/ParseSun/Offsets/Keeps.antt =====
-- modules/parse_sun.c: what the loop over the offsets leaves of the cache.
use autofs.Prelude.{
  ℕ, zero, suc, Bool, true, List, [], ◌∷◌, ◌++◌, Option, none, some, length, if_both, Bool-cases,
  inl, inr, ltb, ◌+◌,
}
use autofs.Text.{Bytes}
use autofs.Cache.{Cache}
use autofs.Cache.Write.{Che}
use autofs.Cache.Delete.{cache_delete}
use autofs.Cache.Update.{cache_update_offset}
use autofs.Cache.Walk.{IsCache}
use autofs.Cache.Steps.{Kept, cache_delete-IsCache}
use autofs.Cache.Updates.{cache_update_offset-Kept}
use autofs.ParseSubs.Quotes.{skipspace}
use autofs.ParseSun.Entry.{Outcome, Entry, parse_mapent}
use autofs.ParseSun.Entry.Locations.{Returns, and_then-Returns, any_outcome}
use autofs.ParseSun.Offsets.{
  Work, Store, is_refused_offset, store_offset, update_offset_entry, listed, offset_mapent,
  starts_offset, take_offset, Multi, give_up, add_offset, unless_zero, or_give_up, offsets_loop,
  offset_key, text_of, options_len, mapent_max_len, cleanup_offset_entries,
}

-- The cache of the store is one.
abbrev pub KeepsCache : Bool × Store → Type 0
KeepsCache u = IsCache u.1.mc

pub cleanup_offset_entries-IsCache :
    (l : List Work) (mc : Cache) → IsCache mc → IsCache (cleanup_offset_entries mc l)
unfolding cleanup_offset_entries
cleanup_offset_entries-IsCache [] mc h = h
cleanup_offset_entries-IsCache (w ∷ l) mc h =
    cleanup_offset_entries-IsCache l (cache_delete mc w.key).1 (cache_delete-IsCache mc w.key h)

give_up-KeepsCache : (s : Store) → IsCache s.mc → Returns KeepsCache (give_up s)
give_up-KeepsCache s h = cleanup_offset_entries-IsCache s.offsets s.mc h

listed-KeepsCache :
    (k : Bytes) (l : List Work) (o : Option (Che × Cache))
    → Kept o
    → Returns KeepsCache (listed k l o)
listed-KeepsCache k l none h = tt
listed-KeepsCache k l (some r) h = h

store_offset-KeepsCache :
    (addr : ℕ) (s : Store) (name m_key : Bytes) (o loc : Option Bytes) (age : ℕ)
    → IsCache s.mc
    → Returns KeepsCache (store_offset addr s name m_key o loc age)
unfolding store_offset
store_offset-KeepsCache addr s name m_key none loc age h = tt
store_offset-KeepsCache addr s name m_key (some o) loc age h =
    if_both (Returns KeepsCache) (ltb mapent_max_len (length (text_of loc) + options_len o))
      (λ e. h)
      (λ e.
        listed-KeepsCache m_key s.offsets
          (cache_update_offset true addr s.mc name m_key (offset_mapent o loc) age)
          (cache_update_offset-Kept true addr s.mc name m_key (offset_mapent o loc) age h))

add_offset-KeepsCache :
    (env : Multi) (fuel : ℕ) (s : Store) (m_offset : Bytes) (e : Entry)
    → IsCache s.mc
    → Returns KeepsCache (add_offset env fuel s m_offset e)
unfolding add_offset update_offset_entry
add_offset-KeepsCache env fuel s m_offset e h =
    if_both (Returns KeepsCache) (is_refused_offset env.type env.m_root m_offset e.location)
      (λ _. h)
      (λ _.
        store_offset-KeepsCache (env.addr fuel) s env.name (env.m_root ++ offset_key m_offset)
          e.options e.location env.age h)

or_give_up-KeepsCache :
    {A : Type 0} (s : Store) (o : Option A) (f : A → Outcome (Bool × Store))
    → IsCache s.mc
    → ((a : A) → Returns KeepsCache (f a))
    → Returns KeepsCache (or_give_up s o f)
or_give_up-KeepsCache s none f h k = give_up-KeepsCache s h
or_give_up-KeepsCache s (some a) f h k = k a

pub offsets_loop-KeepsCache :
    (env : Multi) (fuel : ℕ) (p : Bytes) (s : Store)
    → IsCache s.mc
    → Returns KeepsCache (offsets_loop env fuel p s)
unfolding offsets_loop
offsets_loop-KeepsCache env zero p s h = tt
offsets_loop-KeepsCache env (suc fuel) p s h =
    and_then-Returns (λ o. Unit) KeepsCache (take_offset env.signed p) _
      (any_outcome (take_offset env.signed p))
      (λ o _. or_give_up-KeepsCache s o.0 _ h (λ m_offset.
        and_then-Returns (λ r. Unit) KeepsCache (parse_mapent (skipspace o.1) env.options) _
          (any_outcome (parse_mapent (skipspace o.1) env.options))
          (λ parsed _. or_give_up-KeepsCache s (unless_zero (skipspace o.1) parsed) _ h (λ d.
            and_then-Returns KeepsCache KeepsCache (add_offset env fuel s m_offset d) _
              (add_offset-KeepsCache env fuel s m_offset d h)
              (λ u k. elim (Bool-cases u.0) [
                | inr g ↦ rw (g, Returns) (give_up-KeepsCache u.1 k)
                | inl g ↦ elim (Bool-cases (starts_offset (skipspace d.src))) [
                  | inr i ↦ rw (g, i, Returns) k
                  | inl i ↦
                      rw (g, i, Returns) (offsets_loop-KeepsCache env fuel (skipspace d.src) u.1 k)
                ]
              ])))))
