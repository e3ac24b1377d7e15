-- ===== src/State/First.antt =====
-- daemon/state.c: the functions that look for the first task of a point and change it.
use autofs.Prelude.{
  ℕ, Bool, true, false, List, [], ◌∷◌, none, some, ◌==◌, if◌then◌else◌, ◌≡◌, refl, arith, ◌||◌,
}
use autofs.State.{States, Task}
use autofs.State.Queue.{add_pending, find_add, st_set_thid, st_set_done}

unfoldable pub has_task : ℕ → List Task → Bool
has_task point [] = false
has_task point (t ∷ q) = t.ap == point || has_task point q

unfoldable pub update_first : ℕ → (Task → Task) → List Task → List Task
update_first point f [] = []
update_first point f (t ∷ q) = if t.ap == point then f t ∷ q else t ∷ update_first point f q

pub st_set_thid-update :
    (point thread : ℕ) (q : List Task)
    → st_set_thid point thread q ≡ update_first point (λ t. record t { thid = thread }) q
unfolding st_set_thid update_first
st_set_thid-update point thread [] = refl
st_set_thid-update point thread (t ∷ q) = rw (st_set_thid-update point thread q)

pub st_set_done-update :
    (point : ℕ) (q : List Task)
    → st_set_done point q ≡ update_first point (λ t. record t { done = true }) q
unfolding st_set_done update_first
st_set_done-update point [] = refl
st_set_done-update point (t ∷ q) = rw (st_set_done-update point q)

pub find_add-update :
    (shutting alloc : Bool) (point : ℕ) (s : States) (q : List Task)
    → find_add shutting alloc point s q ≡ (
        if has_task point q
        then some (update_first point (add_pending shutting alloc s) q)
        else none)
unfolding find_add update_first has_task
find_add-update shutting alloc point s [] = refl
find_add-update shutting alloc point s (t ∷ q) =
    ground (arith, find_add-update shutting alloc point s q)
