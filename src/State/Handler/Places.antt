-- ===== src/State/Handler/Places.antt =====
-- daemon/state.c: changes at a place of the queue, and the invariant.
use mathlib.Core.Option.{some_inj}
use autofs.Prelude.{
  ℕ, zero, suc, true, false, List, [], ◌∷◌, ◌++◌, some, ◌==◌, ◌≡◌, ◌≢◌, refl, sym, ap, ◌∙◌, arith,
  get_elem?, modify, erase_idx,
}
use autofs.State.{Task}
use autofs.State.First.{update_first}
use autofs.State.Invariant.{Absent, IsTask, IsQueue}

pub erase_idx-Absent : (p i : ℕ) (q : List Task) → Absent p q → Absent p (erase_idx i q)
erase_idx-Absent p i [] a = tt
erase_idx-Absent p zero (t ∷ q) a = a.1
erase_idx-Absent p (suc i) (t ∷ q) a = (a.0, erase_idx-Absent p i q a.1)

pub erase_idx-IsQueue : (i : ℕ) (q : List Task) → IsQueue q → IsQueue (erase_idx i q)
erase_idx-IsQueue i [] h = tt
erase_idx-IsQueue zero (t ∷ q) h = h.2
erase_idx-IsQueue (suc i) (t ∷ q) h =
    (h.0, erase_idx-Absent t.ap i q h.1, erase_idx-IsQueue i q h.2)

concat-Absent : (p : ℕ) (t : Task) (q : List Task) → t.ap ≢ p → Absent p q → Absent p (q ++ t ∷ [])
concat-Absent p t [] n a = (n, tt)
concat-Absent p t (x ∷ q) n a = (a.0, concat-Absent p t q n a.1)

pub concat-IsQueue :
    (t : Task) (q : List Task) → IsTask t → Absent t.ap q → IsQueue q → IsQueue (q ++ t ∷ [])
concat-IsQueue t [] h a k = (h, tt, tt)
concat-IsQueue t (x ∷ q) h a k =
    (k.0, concat-Absent x.ap t q (λ e. a.0 (sym e)) k.1, concat-IsQueue t q h a.1 k.2)

-- The tasks in front of a task are of other points.
ap_ne : (i p : ℕ) (q : List Task) (t : Task) → get_elem? q i ≡ some t → Absent p q → p ≢ t.ap
ap_ne i p [] t e a = cc
ap_ne zero p (x ∷ q) t e a = λ same_ap. a.0 (ap (λ (t : Task). t.ap) (some_inj.0 e) ∙ sym same_ap)
ap_ne (suc i) p (x ∷ q) t e a = ap_ne i p q t e a.1

-- The point of a removed task has none left.
pub erase_idx-gone :
    (i : ℕ) (q : List Task) (t : Task)
    → get_elem? q i ≡ some t
    → IsQueue q
    → Absent t.ap (erase_idx i q)
erase_idx-gone i [] t e h = tt
erase_idx-gone zero (x ∷ q) t e h = rw (← (some_inj.0 e)) h.1
erase_idx-gone (suc i) (x ∷ q) t e h = (ap_ne i x.ap q t e h.1, erase_idx-gone i q t e h.2)

pub get_elem?-IsTask :
    (i : ℕ) (q : List Task) (t : Task) → get_elem? q i ≡ some t → IsQueue q → IsTask t
get_elem?-IsTask i [] t e h = cc
get_elem?-IsTask zero (x ∷ q) t e h = rw (← (some_inj.0 e)) h.0
get_elem?-IsTask (suc i) (x ∷ q) t e h = get_elem?-IsTask i q t e h.2

modify-Absent :
    (i p : ℕ) (f : Task → Task) (q : List Task)
    → ((t : Task) → (f t).ap ≡ t.ap)
    → Absent p q
    → Absent p (modify f i q)
modify-Absent i p f [] e a = tt
modify-Absent zero p f (x ∷ q) e a = (rw (e x) a.0, a.1)
modify-Absent (suc i) p f (x ∷ q) e a = (a.0, modify-Absent i p f q e a.1)

pub modify-IsQueue :
    (i : ℕ) (f : Task → Task) (q : List Task) (t : Task)
    → ((t : Task) → (f t).ap ≡ t.ap)
    → get_elem? q i ≡ some t
    → IsTask (f t)
    → IsQueue q
    → IsQueue (modify f i q)
modify-IsQueue i f [] t k e n h = tt
modify-IsQueue zero f (x ∷ q) t k e n h = (rw (some_inj.0 e) n, rw (k x) h.1, h.2)
modify-IsQueue (suc i) f (x ∷ q) t k e n h =
    (h.0, modify-Absent i x.ap f q k h.1, modify-IsQueue i f q t k e n h.2)

-- The first task of a task's point is that task.
pub update_first-modify :
    (i : ℕ) (f g : Task → Task) (q : List Task) (t : Task)
    → ((t : Task) → (g t).ap ≡ t.ap)
    → get_elem? q i ≡ some t
    → IsQueue q
    → update_first t.ap f (modify g i q) ≡ modify (λ t. f (g t)) i q
unfolding update_first
update_first-modify i f g [] t k e h = refl
update_first-modify zero f g (x ∷ q) t k e h =
    rw (k x, ap (λ (t : Task). t.ap) (some_inj.0 e), eq_self t.ap)
  where
    eq_self : (n : ℕ) → (n == n) ≡ true
    eq_self n = ground arith
update_first-modify (suc i) f g (x ∷ q) t k e h =
    rw (ne_false x.ap t.ap (ap_ne i x.ap q t e h.1), update_first-modify i f g q t k e h.2)
  where
    ne_false : (m n : ℕ) → m ≢ n → (m == n) ≡ false
    ne_false m n d = ground arith

pub erase_idx-modify :
    (i : ℕ) (f : Task → Task) (q : List Task) → erase_idx i (modify f i q) ≡ erase_idx i q
erase_idx-modify i f [] = refl
erase_idx-modify zero f (x ∷ q) = refl
erase_idx-modify (suc i) f (x ∷ q) = ap (◌∷◌ x) (erase_idx-modify i f q)
