-- ===== src/Replicated/Steps.antt =====
-- modules/replicated.c: the order of the list through all that is done to it.
use mathlib.Core.List.{append-nil}
use autofs.Prelude.{
  ℕ, ◌+◌, Bool, true, false, not, List, [], ◌∷◌, ◌≡◌, inl, inr, refl, arith, ◌==◌, if_both, All,
  Option-cases, Bool-cases, ==_iff,
}
use autofs.Text.{Bytes}
use autofs.Replicated.{
  Host, Env, Addrinfo, make_host, add_new_host, addr_strlen, new_host, host_proximity,
  proximity_unsupported, proximity_error, add_addrs, add_host_addrs, unbracket, add_path,
  add_local_path,
}
use autofs.Replicated.Order.{NotAfter, IsSorted, add_host-IsSorted}
use autofs.Replicated.Prune.{
  Net, span_local, proximity_of, probe_near, prune_probed, is_settled, prune_host_list,
  get_vers_and_cost,
}
use autofs.Replicated.Prune.Kept.{prune_selected_kept}

-- The list that an operation answers is in order.
abbrev Sorts : Bool × List Host → Type 0
Sorts r = IsSorted r.1

make_host-IsSorted :
    (env : Env) (n : ℕ) (list : List Host) (host : Bytes) (ent_num weight : ℕ) (addr : Addrinfo)
    (rr options proximity : ℕ)
    → IsSorted list
    → IsSorted (make_host env n list host ent_num weight addr rr options proximity).1
unfolding make_host
make_host-IsSorted env n list host ent_num weight addr rr options proximity h =
    elim (Option-cases (addr_strlen addr.family)) [
      | inl e ↦ rw (e, make_host) h
      | inr (addr_len, e) ↦
          rw (e, make_host)
            (if_both Sorts (not env.alloc) (λ _. h)
              (λ _. unfold new_host in add_host-IsSorted _ list h))
    ]

add_new_host-IsSorted :
    (env : Env) (n : ℕ) (list : List Host) (host : Bytes) (ent_num weight : ℕ) (addr : Addrinfo)
    (rr options : ℕ)
    → IsSorted list
    → IsSorted (add_new_host env n list host ent_num weight addr rr options).1
unfolding add_new_host
add_new_host-IsSorted env n list host ent_num weight addr rr options h =
    let near = env.get_proximity addr.ai_addr in
    if_both Sorts (near == proximity_unsupported) (λ _. h)
      (λ _.
        if_both Sorts (host_proximity near options == proximity_error) (λ _. h)
          (λ _. make_host-IsSorted env n list host ent_num weight addr rr options _ h))

add_addrs-IsSorted :
    (env : Env) (n : ℕ) (list : List Host) (host : Bytes) (ent_num weight : ℕ) (rr options : ℕ)
    (addrs : List Addrinfo) (ret : Bool)
    → IsSorted list
    → IsSorted (add_addrs env n list host ent_num weight rr options addrs ret).1
unfolding add_addrs
add_addrs-IsSorted env n list host ent_num weight rr options [] ret h = h
add_addrs-IsSorted env n list host ent_num weight rr options (this ∷ next) ret h =
    let r = add_new_host env n list host ent_num weight this rr options in
    let k : IsSorted r.1 = add_new_host-IsSorted env n list host ent_num weight this rr options h in
    elim (Bool-cases r.0) [
      | inl e ↦
          rw (e, add_addrs)
            (add_addrs-IsSorted env (n + 1) r.1 host ent_num weight rr options next true k)
      | inr e ↦ rw (e, add_addrs) k
    ]

add_host_addrs-IsSorted :
    (env : Env) (list : List Host) (host : Bytes) (ent_num weight options : ℕ)
    → IsSorted list
    → IsSorted (add_host_addrs env list host ent_num weight options).1
unfolding add_host_addrs
add_host_addrs-IsSorted env list host ent_num weight options h =
    if_both Sorts (not env.alloc) (λ _. h)
      (λ _. elim (Option-cases (env.getaddrinfo true (unbracket host))) [
        | inr (ni, e) ↦
            rw e (add_addrs-IsSorted env 0 list host ent_num weight 0 options ni false h)
        | inl e ↦ rw e (elim (Option-cases (env.getaddrinfo false (unbracket host))) [
          | inl e' ↦ rw e' h
          | inr (ni, e') ↦
              rw e' (add_addrs-IsSorted env 0 list host ent_num weight _ options ni false h)
        ])
      ])

add_path-All :
    (a : Host) (l : List Host) (path : Bytes)
    → All (NotAfter a) l
    → All (NotAfter a) (add_path l path)
unfolding add_path
add_path-All a [] path h = tt
add_path-All a (this ∷ l) path (h, k) = elim (Option-cases this.path) [
  | inl e ↦ rw (e, add_path) (h, add_path-All a l path k)
  | inr (p, e) ↦ rw (e, add_path) (h, add_path-All a l path k)
]

add_path-IsSorted : (l : List Host) (path : Bytes) → IsSorted l → IsSorted (add_path l path)
unfolding add_path
add_path-IsSorted [] path h = tt
add_path-IsSorted (this ∷ l) path (h, k) = elim (Option-cases this.path) [
  | inl e ↦ rw (e, add_path) (add_path-All this l path h, add_path-IsSorted l path k)
  | inr (p, e) ↦ rw (e, add_path) (add_path-All this l path h, add_path-IsSorted l path k)
]

add_local_path-IsSorted :
    (alloc : Bool) (a : ℕ) (l : List Host) (path : Bytes)
    → IsSorted l
    → IsSorted (add_local_path alloc a l path).1
unfolding add_local_path
add_local_path-IsSorted alloc a l path h =
    if_both Sorts (not alloc) (λ _. h) (λ _. add_host-IsSorted _ l h)

-- Where no host is left by the loop that probes the closest ones, none stands behind them.
abbrev IsAll : List Host × List Host → Type 0
IsAll r = r.0 ≡ [] → r.1 ≡ []

IsAll-cons : (o : Host) (r : List Host × List Host) → IsAll (o ∷ r.0, r.1)
IsAll-cons o r e = ground arith

proximity_of_again : (l : List Host) (n : ℕ) → proximity_of l (proximity_of l n) ≡ proximity_of l n
proximity_of_again [] n = refl
proximity_of_again (_ ∷ _) n = refl

probe_near-IsAll :
    (net : Net) (vers : ℕ) (proximity : ℕ) (l : List Host)
    → proximity_of l proximity ≡ proximity
    → IsAll (probe_near net vers true proximity l)
unfolding probe_near
probe_near-IsAll net vers proximity [] h = λ e. refl
probe_near-IsAll net vers proximity (this ∷ next) h =
    let b : (this.proximity == proximity) ≡ true = (==_iff this.proximity proximity).1 h in
    elim (Option-cases this.name) [
      | inl e ↦ rw (b, e, probe_near) (IsAll-cons this _)
      | inr (name, e) ↦ elim (Bool-cases (get_vers_and_cost net this vers).0) [
        | inl e' ↦ rw (b, e, e', probe_near) (IsAll-cons _ _)
        | inr e' ↦
            rw (b, e, e', probe_near)
              (probe_near-IsAll net vers (proximity_of next proximity) next
                (proximity_of_again next proximity))
      ]
    ]

prune_probed-IsSorted :
    (net : Net) (locals near far : List Host)
    → IsSorted locals
    → (near ≡ [] → far ≡ [])
    → IsSorted (prune_probed net locals (near, far))
unfolding prune_probed
prune_probed-IsSorted net locals [] far h e = rw (e refl, append-nil locals) h
prune_probed-IsSorted net locals (first ∷ near) far h e =
    (prune_selected_kept net locals (first ∷ near) far).0

span_local-All : (a : Host) (l : List Host) → All (NotAfter a) l → All (NotAfter a) (span_local l).0
unfolding span_local
span_local-All a [] h = tt
span_local-All a (this ∷ l) h = ground (arith, span_local-All a l)

span_local-IsSorted : (l : List Host) → IsSorted l → IsSorted (span_local l).0
unfolding span_local
span_local-IsSorted [] h = tt
span_local-IsSorted (this ∷ l) h = ground (arith, span_local-IsSorted l, span_local-All this l)

prune_host_list-IsSorted :
    (net : Net) (vers : ℕ) (list : List Host)
    → IsSorted list
    → IsSorted (prune_host_list net vers list)
unfolding prune_host_list
prune_host_list-IsSorted net vers list h =
    let locals = (span_local list).0 in
    let others = (span_local list).1 in
    let start : proximity_of others (proximity_of others 0) ≡ proximity_of others 0 =
      proximity_of_again others 0 in
    if_both IsSorted (is_settled net.text_options others) (λ _. h)
      (λ _.
        prune_probed-IsSorted net locals _ _ (span_local-IsSorted list h)
          (probe_near-IsAll net vers (proximity_of others 0) others start))

-- The lists of hosts that a location and its pruning make.
pub data Reach : List Host → Type 0 where
  empty : Reach []
  add_addrs_of :
      (env : Env) (list : List Host) (host : Bytes) (ent_num weight options : ℕ)
      → Reach list
      → Reach (add_host_addrs env list host ent_num weight options).1
  set_path : (list : List Host) (path : Bytes) → Reach list → Reach (add_path list path)
  add_local :
      (alloc : Bool) (addr : ℕ) (list : List Host) (path : Bytes)
      → Reach list
      → Reach (add_local_path alloc addr list path).1
  prune :
      (net : Net) (vers : ℕ) (list : List Host) → Reach list → Reach (prune_host_list net vers list)

-- A list of hosts stays in order, closer hosts first and of equally close ones those that cost less,
-- whatever addresses and paths are added to it and whatever the network answers when it is pruned.
pub Reach-IsSorted_hosts : (list : List Host) → Reach list → IsSorted list
Reach-IsSorted_hosts list empty = tt
Reach-IsSorted_hosts list (add_addrs_of env l host ent_num weight options r) =
    add_host_addrs-IsSorted env l host ent_num weight options (Reach-IsSorted_hosts l r)
Reach-IsSorted_hosts list (set_path l path r) = add_path-IsSorted l path (Reach-IsSorted_hosts l r)
Reach-IsSorted_hosts list (add_local alloc addr l path r) =
    add_local_path-IsSorted alloc addr l path (Reach-IsSorted_hosts l r)
Reach-IsSorted_hosts list (prune net vers l r) =
    prune_host_list-IsSorted net vers l (Reach-IsSorted_hosts l r)
