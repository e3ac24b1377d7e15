-- ===== src/Replicated/Order.antt =====
-- modules/replicated.c: the order of the hosts.
use autofs.Prelude.{◌≤◌, ◌<◌, List, [], ◌∷◌, ◌≡◌, ◌⊎◌, arith, All}
use autofs.Replicated.{Host, insert_by_cost, add_host}

-- Closer hosts come first, and of equally close hosts those that cost less.
abbrev pub NotAfter : Host → Host → Type 0
NotAfter a b = (a.proximity < b.proximity) ⊎ ((a.proximity ≡ b.proximity) × (a.cost ≤ b.cost))

abbrev pub IsSorted : List Host → Type 0
IsSorted [] = Unit
IsSorted (h ∷ next) = All (NotAfter h) next × IsSorted next

NotAfter-trans :
    (a b : Host) (l : List Host) → NotAfter a b → All (NotAfter b) l → All (NotAfter a) l
NotAfter-trans a b [] h k = tt
NotAfter-trans a b (c ∷ l) h k = (ground arith, NotAfter-trans a b l h k.1)

insert_by_cost-All :
    (a host : Host) (l : List Host)
    → NotAfter a host
    → All (NotAfter a) l
    → All (NotAfter a) (insert_by_cost host l)
unfolding insert_by_cost
insert_by_cost-All a host [] h k = (h, tt)
insert_by_cost-All a host (this ∷ next) h k = ground (arith, insert_by_cost-All a host next)

insert_by_cost-IsSorted :
    (host : Host) (l : List Host)
    → All (λ a. host.proximity ≤ a.proximity) l
    → IsSorted l
    → IsSorted (insert_by_cost host l)
unfolding insert_by_cost
insert_by_cost-IsSorted host [] h s = (tt, tt)
insert_by_cost-IsSorted host (this ∷ next) h s = ground (
  arith,
  insert_by_cost-IsSorted host next,
  insert_by_cost-All this host next,
  NotAfter-trans host this next,
)

at_least :
    (host this : Host) (l : List Host)
    → host.proximity ≤ this.proximity
    → All (NotAfter this) l
    → All (λ a. host.proximity ≤ a.proximity) l
at_least host this [] h k = tt
at_least host this (a ∷ l) h k = (ground arith, at_least host this l h k.1)

add_host-All :
    (a host : Host) (l : List Host)
    → NotAfter a host
    → All (NotAfter a) l
    → All (NotAfter a) (add_host host l)
unfolding add_host
add_host-All a host [] h k = (h, tt)
add_host-All a host (this ∷ next) h k =
    ground (arith, add_host-All a host next, insert_by_cost-All a host (this ∷ next))

-- Adding a host keeps the hosts in the order of their closeness, and equally close ones in the order
-- of their cost.
pub add_host-IsSorted : (host : Host) (l : List Host) → IsSorted l → IsSorted (add_host host l)
unfolding add_host
add_host-IsSorted host [] s = (tt, tt)
add_host-IsSorted host (this ∷ next) s = ground (
  arith,
  add_host-IsSorted host next,
  add_host-All this host next,
  insert_by_cost-IsSorted host (this ∷ next),
  at_least host this next,
  NotAfter-trans host this next,
)
