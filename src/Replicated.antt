-- ===== src/Replicated.antt =====
-- modules/replicated.c and include/replicated.h: the list of hosts that a replicated mount may come
-- from. `addr` of a host is its address in memory, by which the list functions tell hosts apart.
pub mod Order
pub mod Prune
pub mod Steps
mod Examples
use Prim.Native.Nat.{bit_and}
use autofs.Prelude.{
  ℕ, ◌+◌, Bool, true, false, not, ◌&&◌, ◌||◌, List, [], ◌∷◌, Option, none, some, ◌==◌,
  if◌then◌else◌, ltb, leb,
}
use autofs.Text.{Bytes}

-- `struct host`; the socket address is kept as its bytes.
pub record Host : Type 0 where
  pub addr : ℕ
  pub name : Option Bytes
  pub ent_num : ℕ
  pub sockaddr : Bytes
  pub addr_len : ℕ
  pub rr : ℕ
  pub path : Option Bytes
  pub version : ℕ
  pub options : ℕ
  pub proximity : ℕ
  pub weight : ℕ
  pub cost : ℕ

abbrev pub proximity_error : ℕ
proximity_error = 0x0000

abbrev pub proximity_local : ℕ
proximity_local = 0x0001

abbrev pub proximity_subnet : ℕ
proximity_subnet = 0x0002

abbrev pub proximity_unsupported : ℕ
proximity_unsupported = 0x0010

-- `flags & bit`
unfoldable pub has : ℕ → ℕ → Bool
has flags bit = not (bit_and flags bit == 0)

-- `new_host`, where memory is there.
unfoldable pub new_host :
    (addr : ℕ)
    → Option Bytes
    → (ent_num : ℕ) → Option Bytes
    → (addr_len proximity weight options : ℕ) → Option Host
new_host a none ent_num sockaddr addr_len proximity weight options = none
new_host a (some name) ent_num none addr_len proximity weight options = none
new_host a (some name) ent_num (some sockaddr) addr_len proximity weight options = some (record {
  addr = a;
  name = some name;
  ent_num = ent_num;
  sockaddr = sockaddr;
  addr_len = addr_len;
  rr = 0;
  path = none;
  version = 0;
  options = options;
  proximity = proximity;
  weight = weight;
  cost = 0;
})

-- The second loop of `add_host` and the links behind it.
unfoldable pub insert_by_cost : Host → List Host → List Host
insert_by_cost host [] = host ∷ []
insert_by_cost host (this ∷ next) =
    if not (this.proximity == host.proximity) || leb host.cost this.cost
    then host ∷ this ∷ next
    else this ∷ insert_by_cost host next

-- The first loop, and the test of the cost.
unfoldable pub add_host : Host → List Host → List Host
unfolding insert_by_cost
add_host host [] = host ∷ []
add_host host (this ∷ next) =
    if leb host.proximity this.proximity
    then if host.cost == 0 then host ∷ this ∷ next else insert_by_cost host (this ∷ next)
    else this ∷ add_host host next

-- `remove_host`, and `delete_host`, which frees the host as well.
unfoldable pub remove_host : Host → List Host → List Host
remove_host host [] = []
remove_host host (this ∷ next) =
    if this.addr == host.addr then next else this ∷ remove_host host next

-- `struct addrinfo`. `round_robin` tells whether the loop that counts addresses counts this one.
pub data Family : Type 0 where
  af_inet af_inet6 af_other : Family

pub record Addrinfo : Type 0 where
  pub family : Family
  pub ai_addr : Bytes
  pub round_robin : Bool

-- INET_ADDRSTRLEN and INET6_ADDRSTRLEN
abbrev pub addr_strlen : Family → Option ℕ
addr_strlen af_inet = some 16
addr_strlen af_inet6 = some 46
addr_strlen af_other = none

-- MOUNT_FLAG_USE_WEIGHT_ONLY and MOUNT_FLAG_RANDOM_SELECT
abbrev pub use_weight_only : ℕ
use_weight_only = 0x0010

abbrev pub random_select : ℕ
random_select = 0x0004

-- The closeness that `add_new_host` gives a host; `near` is the answer of `get_proximity`.
unfoldable pub host_proximity : (near options : ℕ) → ℕ
unfolding has
host_proximity near options =
    if not (near == proximity_local) && (has options use_weight_only || has options random_select)
    then proximity_subnet
    else near

-- What the system answers while hosts are added: the closeness of an address, the addresses of a name
-- (numeric first), whether memory is there, and the address of a new host, by the number of hosts
-- that the call made before.
pub record Env : Type 0 where
  pub get_proximity : Bytes → ℕ
  pub getaddrinfo : (numeric : Bool) → Bytes → Option (List Addrinfo)
  pub alloc : Bool
  pub address : ℕ → ℕ

-- `add_new_host` from `new_host` on; `n` hosts were made before.
unfoldable pub make_host :
    Env
    → (n : ℕ) → List Host
    → Bytes
    → (ent_num weight : ℕ) → Addrinfo
    → (rr options proximity : ℕ) → Bool × List Host
unfolding new_host add_host
make_host env n list host ent_num weight host_addr rr options proximity =
    elim (addr_strlen host_addr.family) [
      | none ↦ (false, list)
      | some addr_len ↦
          if not env.alloc
          then (false, list)
          else elim (new_host (env.address n) (some host) ent_num (some host_addr.ai_addr) addr_len
              proximity weight options) [
                | none ↦ (false, list)
                | some new ↦ (true, add_host (record new { rr = rr }) list)
              ]
    ]

unfoldable pub add_new_host :
    Env
    → (n : ℕ) → List Host
    → Bytes
    → (ent_num weight : ℕ) → Addrinfo
    → (rr options : ℕ) → Bool × List Host
unfolding make_host host_proximity
add_new_host env n list host ent_num weight host_addr rr options =
    let near = env.get_proximity host_addr.ai_addr in
    if near == proximity_unsupported
    then (true, list)
    else if host_proximity near options == proximity_error
    then (false, list)
    else make_host env n list host ent_num weight host_addr rr options (host_proximity near options)

-- The loops over the addresses of a name, which stop where an addition fails.
unfoldable pub add_addrs :
    Env
    → (n : ℕ) → List Host
    → Bytes
    → (ent_num weight : ℕ) → (rr options : ℕ) → List Addrinfo
    → (ret : Bool) → Bool × List Host
unfolding add_new_host
add_addrs env n list host ent_num weight rr options [] ret = (ret, list)
add_addrs env n list host ent_num weight rr options (this ∷ next) ret =
    let r = add_new_host env n list host ent_num weight this rr options in
    elim r.0 [
      | true ↦ add_addrs env (n + 1) r.1 host ent_num weight rr options next true
      | false ↦ (false, r.1)
    ]

abbrev same_family : Family → Family → Bool
same_family af_inet af_inet = true
same_family af_inet6 af_inet6 = true
same_family af_other af_other = true
same_family _ _ = false

-- `rr4` and `rr6`
unfoldable pub count_addrs : Family → List Addrinfo → ℕ
count_addrs f [] = 0
count_addrs f (this ∷ next) =
    (if this.round_robin && same_family f this.family then 1 else 0) + count_addrs f next

-- Does the name end in `]`, and the name without its last byte.
unfoldable pub ends_bracket : Bytes → Bool
ends_bracket [] = false
ends_bracket (c ∷ []) = c == b']'
ends_bracket (_ ∷ c ∷ s) = ends_bracket (c ∷ s)

unfoldable pub drop_last : Bytes → Bytes
drop_last [] = []
drop_last (_ ∷ []) = []
drop_last (b ∷ c ∷ s) = b ∷ drop_last (c ∷ s)

-- The name without brackets round it.
unfoldable pub unbracket : Bytes → Bytes
unfolding ends_bracket drop_last
unbracket [] = []
unbracket (c ∷ s) = if c == b'[' && ends_bracket s then drop_last s else c ∷ s

unfoldable pub add_host_addrs :
    Env → List Host → Bytes → (ent_num weight options : ℕ) → Bool × List Host
unfolding add_addrs count_addrs unbracket
add_host_addrs env list host ent_num weight options =
    if not env.alloc then (false, list) else elim (env.getaddrinfo true (unbracket host)) [
      | some ni ↦ add_addrs env 0 list host ent_num weight 0 options ni false
      | none ↦ elim (env.getaddrinfo false (unbracket host)) [
        | none ↦ (false, list)
        | some ni ↦
            let rr =
              if ltb 1 (count_addrs af_inet ni) || ltb 1 (count_addrs af_inet6 ni) then 1 else 0 in
            add_addrs env 0 list host ent_num weight rr options ni false
      ]
    ]

-- `add_path`, where memory is there.
unfoldable pub add_path : List Host → Bytes → List Host
add_path [] path = []
add_path (this ∷ next) path = elim this.path [
  | none ↦ record this { path = some path } ∷ add_path next path
  | some _ ↦ this ∷ add_path next path
]

-- NFS2_SUPPORTED | NFS3_SUPPORTED
abbrev pub nfs_vers_mask : ℕ
nfs_vers_mask = 0x0030

unfoldable pub add_local_path : (alloc : Bool) (addr : ℕ) → List Host → Bytes → Bool × List Host
unfolding add_host
add_local_path alloc a hosts path = if not alloc then (false, hosts) else (
  true,
  add_host
      (record {
        addr = a;
        name = none;
        ent_num = 0;
        sockaddr = [];
        addr_len = 0;
        rr = 0;
        path = some path;
        version = nfs_vers_mask;
        options = 0;
        proximity = proximity_local;
        weight = 0;
        cost = 0;
      })
      hosts,
)
