-- ===== src/Replicated/Examples.antt =====
-- modules/replicated.c: the theorems at concrete hosts.
use autofs.Prelude.{ℕ, ◌≤◌, true, if◌then◌else◌, false, List, [], ◌∷◌, ◌++◌, none, some, All}
use autofs.Replicated.{Host}
use autofs.Text.{codes, equal}
use autofs.Replicated.Steps.{empty, add_addrs_of, set_path, add_local, prune, Reach-IsSorted_hosts}
use autofs.Replicated.{Env, af_inet, af_inet6, add_host_addrs, add_path, add_local_path}
use autofs.Replicated.Order.{IsSorted}
use autofs.Replicated.Prune.{
  prune_host_list, Net, port_zero, connected, answered, unreachable, count_version, select_version,
}
use autofs.Replicated.Prune.Chosen.{all_versions, select_version-max}
use autofs.Replicated.Prune.Kept.{Pruned, prune_host_list_kept}

abbrev host : (addr version proximity cost : ℕ) → Host
host a version proximity cost = record {
  addr = a;
  name = some (codes "lion");
  ent_num = a;
  sockaddr = [];
  addr_len = 16;
  rr = 0;
  path = none;
  version = version;
  options = 0;
  proximity = proximity;
  weight = 0;
  cost = cost;
}

abbrev near : List Host
near = host 1 0x60 2 5 ∷ host 2 0x20 2 7 ∷ []

abbrev far : List Host
far = host 3 0 4 0 ∷ []

-- A network in which only version 3 over TCP answers.
abbrev net : Net
net = record {
  nfs_info = λ _ _ _. (unreachable, 0);
  port = port_zero;
  has_portmap = λ _ _. true;
  has_port = λ _ _ _. true;
  getclient = λ _ _ _. connected;
  ping = λ _ _ _. answered 30 7;
  text_options = false;
  use_hostname_for_mounts = false;
}

-- A name with an address of each family, the second one closer.
abbrev env : Env
env = record {
  get_proximity = λ addr. if equal addr (4 ∷ []) then 4 else 2;
  getaddrinfo = λ numeric _.
      if numeric
      then none
      else some (
          (record { family = af_inet; ai_addr = 4 ∷ []; round_robin = true })
          ∷ (record { family = af_inet6; ai_addr = 6 ∷ []; round_robin = true })
          ∷ []);
  alloc = true;
  address = λ n. n;
}

-- The list for `name:/a` with a local path, pruned.
abbrev location : List Host
location =
    prune_host_list net 0xff
      (add_local_path true 7 (add_path (add_host_addrs env [] (codes "name") 1 0 0).1 (codes "/a"))
        (codes "/b")).1

Reach-IsSorted_hosts_example : IsSorted location
Reach-IsSorted_hosts_example = Reach-IsSorted_hosts location (
    prune net 0xff _ (
      add_local true 7 _ (codes "/b")
        (set_path _ (codes "/a") (add_addrs_of env [] (codes "name") 1 0 0 empty))))

select_version-max_example :
    All (λ v. count_version v near ≤ count_version (select_version near) near) all_versions
select_version-max_example = select_version-max near

prune_host_list_kept_example :
    let list = host 5 0 1 0 ∷ near ++ far in Pruned net 0xff list (prune_host_list net 0xff list)
prune_host_list_kept_example = prune_host_list_kept net 0xff (host 5 0 1 0 ∷ near ++ far)
