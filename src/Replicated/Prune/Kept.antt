-- ===== src/Replicated/Prune/Kept.antt =====
-- modules/replicated.c: the hosts of the list that `prune_host_list` leaves.
use autofs.Prelude.{
  ℕ, true, not, ◌&&◌, ◌||◌, List, [], ◌∷◌, ◌++◌, Option, none, some, ◌≡◌, inl, inr, refl, ◌==◌, ◌/◌,
  ◌^◌, if◌then◌else◌, arith, Bool-cases, Option-cases, if_both, leb, All, In,
}
use mathlib.Core.Option.{some_inj}
use autofs.Text.{Bytes}
use autofs.Replicated.{Host, proximity_local, has, insert_by_cost, add_host}
use autofs.Replicated.Order.{IsSorted, add_host-IsSorted}
use autofs.Replicated.Prune.{
  Net, select_version, take_near, answer_far, visit_far, take_far, is_entry,
  get_supported_ver_and_cost, prune_selected, prune_probed, prune_host_list, probe_near, span_local,
  proximity_of, is_settled, Proto, tcp, udp, probe_status, nfs_version, set_cost,
  check_address_proto, udp_selected_mask,
}

All-In : (l whole : List Host) → ((o : Host) → In o l → In o whole) → All (λ o. In o whole) l
All-In [] whole f = tt
All-In (h ∷ l) whole f = (f h (inl refl), All-In l whole (λ o i. f o (inr i)))

module _ (P : Host → Type 0) where
  insert_by_cost-All :
      (host : Host) (l : List Host) → P host → All P l → All P (insert_by_cost host l)
  unfolding insert_by_cost
  insert_by_cost-All host [] h k = (h, tt)
  insert_by_cost-All host (this ∷ next) h k =
      if_both (All P) (not (this.proximity == host.proximity) || leb host.cost this.cost)
        (λ _. (h, k)) (λ _. (k.0, insert_by_cost-All host next h k.1))

  add_host-All : (host : Host) (l : List Host) → P host → All P l → All P (add_host host l)
  unfolding add_host
  add_host-All host [] h k = (h, tt)
  add_host-All host (this ∷ next) h k =
      if_both (All P) (leb host.proximity this.proximity)
        (λ _.
          if_both (All P) (host.cost == 0) (λ _. (h, k))
            (λ _. insert_by_cost-All host (this ∷ next) h k))
        (λ _. (k.0, add_host-All host next h k.1))

  -- The new list while it is built.
  abbrev pub IsNew : List Host → Type 0
  IsNew new = IsSorted new × All P new

  add_host-IsNew : (host : Host) (new : List Host) → P host → IsNew new → IsNew (add_host host new)
  add_host-IsNew host new h k = (add_host-IsSorted host new k.0, add_host-All host new h k.1)

  take_near-IsNew :
      (v : ℕ) (l new : List Host)
      → All
          (λ o.
            (has o.version v || o.proximity == proximity_local) ≡ true
            → P (record o { version = v }))
          l
      → IsNew new
      → IsNew (take_near v l new)
  unfolding take_near
  take_near-IsNew v [] new h k = k
  take_near-IsNew v (this ∷ next) new h k = take_near-IsNew v next _ h.1 (
      if_both IsNew (has this.version v || this.proximity == proximity_local)
        (λ test. add_host-IsNew (record this { version = v }) new (h.0 test) k) (λ _. k))

  -- What the rest of the list gives to the new list.
  abbrev pub Gives : Net → ℕ → Host → Type 0
  Gives net v o =
      (o.name ≡ none → P o)
      × ((host : Host)
          → get_supported_ver_and_cost net o v ≡ some host
          → P (record host { version = v }))

  answer_far-IsNew :
      (v : ℕ) (prev : Option ℕ) (this : Host) (new : List Host) (o : Option Host)
      → ((host : Host) → o ≡ some host → P (record host { version = v }))
      → IsNew new
      → IsNew (answer_far v prev this new o).1
  unfolding answer_far
  answer_far-IsNew v prev this new none g k = k
  answer_far-IsNew v prev this new (some host) g k =
      add_host-IsNew (record host { version = v }) new (g host refl) k

  visit_far-IsNew :
      (net : Net) (v : ℕ) (prev : Option ℕ) (this : Host) (new : List Host) (name : Option Bytes)
      → this.name ≡ name
      → Gives net v this
      → IsNew new
      → IsNew (visit_far net v prev this new name).1
  unfolding visit_far
  visit_far-IsNew net v prev this new none e g k = add_host-IsNew this new (g.0 e) k
  visit_far-IsNew net v prev this new (some name) e g k =
      if_both (λ (r : Option ℕ × List Host). IsNew r.1)
        (net.use_hostname_for_mounts && is_entry prev this.ent_num) (λ _. k)
        (λ _. answer_far-IsNew v prev this new (get_supported_ver_and_cost net this v) g.1 k)

  take_far-IsNew :
      (net : Net) (v : ℕ) (l : List Host) (prev : Option ℕ) (new : List Host)
      → All (Gives net v) l
      → IsNew new
      → IsNew (take_far net v prev l new)
  unfolding take_far
  take_far-IsNew net v [] prev new g k = k
  take_far-IsNew net v (this ∷ next) prev new g k =
      take_far-IsNew net v next _ _ g.1 (visit_far-IsNew net v prev this new this.name refl g.0 k)

-- The protocol of a selected version, and its bits as those over TCP.
abbrev pub proto_of : ℕ → Proto
proto_of selected = if has selected udp_selected_mask then udp else tcp

abbrev pub number_bits : ℕ → ℕ
number_bits selected = if has selected udp_selected_mask then selected / 2 ^ 8 else selected

-- A probe of the host for the version was not refused: the version has a number, the host's address is
-- of the wanted family, and `status` is not 0, so the host is there or the call ended in an error other
-- than `EHOSTUNREACH`. The cost is set from the time.
pub record Probed (net : Net) (selected : ℕ) (o host : Host) : Type 0 where
  pub vers : ℕ
  pub taken : ℕ
  pub family : check_address_proto o selected ≡ true
  pub number : nfs_version (number_bits selected) ≡ some vers
  pub status : probe_status net o (proto_of selected) vers ≡ some taken
  pub costed : set_cost taken o ≡ host

-- Where a host of the new list comes from: a host that was probed for all versions and serves the
-- selected one, or is local; a host of the rest without a name; or a host of the rest that a probe for
-- the selected version did not refuse.
pub data ComesFrom (net : Net) (selected : ℕ) (near far : List Host) (h : Host) : Type 0 where
  from_near :
      (o : Host)
      → In o near
      → (has o.version selected || o.proximity == proximity_local) ≡ true
      → h ≡ record o { version = selected }
      → ComesFrom net selected near far h
  from_unnamed : In h far → h.name ≡ none → ComesFrom net selected near far h
  from_far :
      (o host : Host)
      → In o far
      → Probed net selected o host
      → h ≡ record host { version = selected }
      → ComesFrom net selected near far h

All-map : {P Q : Host → Type 0} (l : List Host) → ((o : Host) → P o → Q o) → All P l → All Q l
All-map [] f h = tt
All-map (o ∷ l) f h = (f o h.0, All-map l f h.1)

get_supported_ver_and_cost-Probed :
    (net : Net) (v : ℕ) (o host : Host)
    → get_supported_ver_and_cost net o v ≡ some host
    → Probed net v o host
unfolding get_supported_ver_and_cost
get_supported_ver_and_cost-Probed net v o host h = elim (Bool-cases (check_address_proto o v)) [
  | inr f ↦ let l : none ≡ some host = rw f at h in absurd (ground arith)
  | inl f ↦ elim (Option-cases (nfs_version (number_bits v))) [
    | inl e ↦ let l : none ≡ some host = rw (f, e) at h in absurd (ground arith)
    | inr (vers, e) ↦ elim (Option-cases (probe_status net o (proto_of v) vers)) [
      | inl g ↦ let l : none ≡ some host = rw (f, e, g) at h in absurd (ground arith)
      | inr (taken, g) ↦
          let l : some (set_cost taken o) ≡ some host = rw (f, e, g) at h in
          record {
            vers = vers;
            taken = taken;
            family = f;
            number = e;
            status = g;
            costed = some_inj.0 l;
          }
    ]
  ]
]

-- The new list holds hosts that serve the selected version, local hosts, hosts without a name and hosts
-- that a probe left a `status` other than 0 for, and no other; they stand in the order of their closeness, and of their cost
-- where that is equal.
pub prune_selected_kept :
    (net : Net) (locals near far : List Host)
    → let selected = select_version near in
      let new = prune_selected net locals near far in
      IsSorted new × All (ComesFrom net selected (locals ++ near) far) new
unfolding prune_selected
prune_selected_kept net locals near far =
    let v = select_version near in
    let P = ComesFrom net v (locals ++ near) far in
    take_far-IsNew P net v far none _
      (All-map far
        (λ o i. (
          (λ e. from_unnamed i e),
          (λ host e. from_far o host i (get_supported_ver_and_cost-Probed net v o host e) refl),
        ))
        (All-In far far (λ o i. i)))
      (take_near-IsNew P v (locals ++ near) []
        (All-map (locals ++ near) (λ o i test. from_near o i test refl)
          (All-In (locals ++ near) (locals ++ near) (λ o i. i)))
        (tt, tt))

-- What the loop that probes the closest hosts leaves.
abbrev pub near_of : Net → (vers : ℕ) → List Host → List Host × List Host
near_of net vers list =
    let others = (span_local list).1 in probe_near net vers true (proximity_of others 0) others

-- The list that `prune_host_list` leaves: the list as it was, where it is settled without a probe; the
-- local hosts at its front and the rest, where no close host is left; or a list for one version.
pub data Pruned (net : Net) (vers : ℕ) (list new : List Host) : Type 0 where
  as_it_was :
      is_settled net.text_options (span_local list).1 ≡ true → new ≡ list → Pruned net vers list new
  without_near :
      (near_of net vers list).0 ≡ []
      → new ≡ (span_local list).0 ++ (near_of net vers list).1
      → Pruned net vers list new
  for_version :
      IsSorted new
      → All
          (ComesFrom net
            (select_version (near_of net vers list).0)
            ((span_local list).0 ++ (near_of net vers list).0)
            (near_of net vers list).1)
          new
      → Pruned net vers list new

prune_probed-Pruned :
    (net : Net) (vers : ℕ) (list : List Host) (r : List Host × List Host)
    → near_of net vers list ≡ r
    → Pruned net vers list (prune_probed net (span_local list).0 r)
unfolding prune_probed
prune_probed-Pruned net vers list ([], far) e =
    without_near (rw (near_of, e) refl) (rw (near_of, e) refl)
prune_probed-Pruned net vers list (first ∷ near, far) e =
    let (sorted, kept) = prune_selected_kept net (span_local list).0 (first ∷ near) far in
    for_version sorted (rw (near_of, e) kept)

-- What `prune_host_list` leaves is the list as it was, where that is settled without a probe; or the
-- local hosts and the rest, where the probes leave no close host; or a list for the version that
-- `select_version` takes from the close hosts, in the order of closeness and of cost, that holds hosts
-- that serve the version, local hosts, hosts without a name and hosts of the rest for which the probe
-- for the version left a `status` other than 0, by an answer or by an error, and no other.
pub prune_host_list_kept :
    (net : Net) (vers : ℕ) (list : List Host) → Pruned net vers list (prune_host_list net vers list)
unfolding prune_host_list
prune_host_list_kept net vers list =
    if_both (Pruned net vers list) (is_settled net.text_options (span_local list).1)
      (λ e. as_it_was e refl) (λ _. prune_probed-Pruned net vers list (near_of net vers list) refl)
