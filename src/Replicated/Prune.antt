-- ===== src/Replicated/Prune.antt =====
-- modules/replicated.c: `prune_host_list`, which probes the hosts of a list and keeps those that serve
-- one version of NFS.
pub mod Chosen
pub mod Kept
use Prim.Native.Nat.{bit_and, bit_or}
use autofs.Prelude.{
  ℕ, ◌+◌, ◌*◌, ◌/◌, ◌%◌, ◌^◌, Bool, true, false, not, ◌&&◌, ◌||◌, List, [], ◌∷◌, ◌++◌, Option, none,
  some, ◌==◌, if◌then◌else◌, leb,
}
use autofs.Text.{Bytes}
use autofs.Replicated.{Host, proximity_local, has, add_host, use_weight_only, random_select}

-- TCP_REQUESTED and so on.
abbrev pub tcp_requested : ℕ
tcp_requested = 0x0001

abbrev pub udp_requested : ℕ
udp_requested = 0x0002

-- TCP6_REQUESTED | UDP6_REQUESTED
abbrev pub ipv6_requested : ℕ
ipv6_requested = 0x0300

-- NFS_VERS_MASK | NFS4_VERS_MASK | NFS4_ONLY_REQUESTED
abbrev pub vers_requested : ℕ
vers_requested = 0x0870

-- NFS4_TCP_SUPPORTED, NFS3_TCP_SUPPORTED, NFS2_TCP_SUPPORTED, and the same over UDP.
abbrev pub nfs4_tcp : ℕ
nfs4_tcp = 0x0040

abbrev pub nfs3_tcp : ℕ
nfs3_tcp = 0x0020

abbrev pub nfs2_tcp : ℕ
nfs2_tcp = 0x0010

abbrev pub nfs4_udp : ℕ
nfs4_udp = 0x4000

abbrev pub nfs3_udp : ℕ
nfs3_udp = 0x2000

abbrev pub nfs2_udp : ℕ
nfs2_udp = 0x1000

pub data Proto : Type 0 where
  tcp udp : Proto

-- What `get_nfs_info` answers: the errors EHOSTUNREACH and ETIMEDOUT, another error, or the versions
-- that the host serves, which may be none.
pub data Supported : Type 0 where
  unreachable timed_out other_error : Supported
  versions : ℕ → Supported

-- `port` of `prune_host_list`: greater than 0, less, or 0.
pub data Port : Type 0 where
  port_given port_unset port_zero : Port

-- What `rpc_udp_getclient` or `rpc_tcp_getclient` answers: 0, `-EHOSTUNREACH` or another error.
pub data Client : Type 0 where
  connected client_unreachable client_error : Client

-- What `rpc_ping_proto` answers: 0, an error, or that the host answered. The time is in microseconds,
-- as the clock measures it and as `random` gives it.
pub data Ping : Type 0 where
  no_answer ping_error : Ping
  answered : (elapsed random : ℕ) → Ping

-- What the network answers. `nfs_info` is `get_nfs_info` with the cost that it gives the host;
-- `has_portmap` and `has_port` say whether `rpc_portmap_getclient` and `rpc_portmap_getport` succeed.
-- `text_options` is the test of the kernel and of mount.nfs in `prune_host_list`.
pub record Net : Type 0 where
  pub nfs_info : Host → Proto → (vers : ℕ) → Supported × ℕ
  pub port : Port
  pub has_portmap : Host → Proto → Bool
  pub has_port : Host → Proto → (vers : ℕ) → Bool
  pub getclient : Host → Proto → (vers : ℕ) → Client
  pub ping : Host → Proto → (vers : ℕ) → Ping
  pub text_options : Bool
  pub use_hostname_for_mounts : Bool

unfoldable pub check_address_proto : Host → ℕ → Bool
check_address_proto host version =
    if has version ipv6_requested then not (host.addr_len == 16) else true

-- A protocol of `get_vers_and_cost`: whether the function returns at once, `ret`, and the host.
unfoldable pub ask_tcp : Supported × ℕ → Host → Bool × Bool × Host
ask_tcp (unreachable, cost) host = (true, false, record host { cost = cost })
ask_tcp (timed_out, cost) host = (true, false, record host { cost = cost })
ask_tcp (other_error, cost) host = (false, false, record host { cost = cost })
ask_tcp (versions supported, cost) host =
    if supported == 0
    then (false, false, record host { cost = cost })
    else (false, true, record host { cost = cost; version = bit_or host.version supported })

unfoldable pub ask_udp : Supported × ℕ → (ret : Bool) → Host → Bool × Host
ask_udp (versions supported, cost) ret host =
    if supported == 0
    then (ret, record host { cost = cost })
    else (true, record host { cost = cost; version = bit_or host.version (supported * 2 ^ 8) })
ask_udp (_, cost) ret host = (ret, record host { cost = cost })

unfoldable pub after_tcp : Net → (version : ℕ) → Bool × Bool × Host → Bool × Host
unfolding ask_udp
after_tcp net version (true, ret, host) = (ret, host)
after_tcp net version (false, ret, host) =
    if has version udp_requested
    then ask_udp (net.nfs_info host udp (bit_and vers_requested version)) ret host
    else (ret, host)

unfoldable pub get_vers_and_cost : Net → Host → (version : ℕ) → Bool × Host
unfolding check_address_proto ask_tcp after_tcp
get_vers_and_cost net host version =
    if not (check_address_proto host version)
    then (false, host)
    else after_tcp net version (
        if has version tcp_requested
        then ask_tcp (net.nfs_info host tcp (bit_and vers_requested version)) host
        else (false, false, host))

-- The `switch` of `get_supported_ver_and_cost`.
unfoldable pub nfs_version : ℕ → Option ℕ
nfs_version version =
    if version == nfs2_tcp
    then some 2
    else if version == nfs3_tcp
    then some 3
    else if version == nfs4_tcp
    then some 4
    else none

-- UDP_SELECTED_MASK
abbrev pub udp_selected_mask : ℕ
udp_selected_mask = 0xff00

-- The cost from the time taken; the weight is an unsigned int and the product an unsigned long.
unfoldable pub set_cost : ℕ → Host → Host
set_cost taken host =
    let cost = if has host.options use_weight_only then 1 else taken in
    record host {
      cost = if host.weight == 0 then cost else cost * ((host.weight + 1) % 2 ^ 32) % 2 ^ 64;
    }

-- Is the port asked from the port mapper? NFS4_VERSION is 4.
abbrev pub asks_portmap : Port → (vers : ℕ) → Bool
asks_portmap port_given vers = false
asks_portmap port_unset vers = not (has vers 4)
asks_portmap port_zero vers = true

-- `status` and `taken` at `done`: nothing where `status` is 0, and the time where it is not, which is 0
-- behind an error.
abbrev pub ping_status : Host → Ping → Option ℕ
ping_status host no_answer = none
ping_status host ping_error = some 0
ping_status host (answered elapsed random) =
    some (if has host.options random_select then random else elapsed)

abbrev pub client_status : Host → Client → Ping → Option ℕ
client_status host client_unreachable ping = none
client_status host client_error ping = some 0
client_status host connected ping = ping_status host ping

unfoldable pub probe_status : Net → Host → Proto → (vers : ℕ) → Option ℕ
probe_status net host proto vers =
    if asks_portmap net.port vers
      && not (net.has_portmap host proto && net.has_port host proto vers)
    then none
    else client_status host (net.getclient host proto vers) (net.ping host proto vers)

unfoldable pub get_supported_ver_and_cost : Net → Host → (version : ℕ) → Option Host
unfolding check_address_proto nfs_version set_cost probe_status
get_supported_ver_and_cost net host version =
    if not (check_address_proto host version)
    then none
    else let proto = if has version udp_selected_mask then udp else tcp in
      let shifted = if has version udp_selected_mask then version / 2 ^ 8 else version in
      elim (nfs_version shifted) [
        | none ↦ none
        | some vers ↦ elim (probe_status net host proto vers) [
          | none ↦ none
          | some taken ↦ some (set_cost taken host)
        ]
      ]

-- The local hosts at the front of a list, and the hosts behind them.
unfoldable pub span_local : List Host → List Host × List Host
span_local [] = ([], [])
span_local (this ∷ next) =
    let rest = span_local next in
    if this.proximity == proximity_local then (this ∷ rest.0, rest.1) else ([], this ∷ next)

abbrev pub proximity_of : List Host → ℕ → ℕ
proximity_of [] proximity = proximity
proximity_of (this ∷ _) proximity = this.proximity

-- The loop that probes the closest hosts: those that it leaves, from `first` up to `last`, and the
-- list from `last` on. `is_first` says whether `this == first`.
unfoldable pub probe_near :
    Net → (vers : ℕ) → (is_first : Bool) (proximity : ℕ) → List Host → List Host × List Host
unfolding get_vers_and_cost
probe_near net vers is_first proximity [] = ([], [])
probe_near net vers is_first proximity (this ∷ next) = elim (this.proximity == proximity) [
  | false ↦ ([], this ∷ next)
  | true ↦ elim this.name [
    | none ↦ let rest = probe_near net vers false proximity next in (this ∷ rest.0, rest.1)
    | some _ ↦
        let r = get_vers_and_cost net this vers in
        elim r.0 [
          | true ↦ let rest = probe_near net vers false proximity next in (r.1 ∷ rest.0, rest.1)
          | false ↦
              probe_near net vers is_first
                (if is_first then proximity_of next proximity else proximity) next
        ]
  ]
]

-- How many of the hosts serve a version.
unfoldable pub count_version : ℕ → List Host → ℕ
count_version v [] = 0
count_version v (this ∷ next) = (if has this.version v then 1 else 0) + count_version v next

-- `mymax` and `mmax`
abbrev pub max : ℕ → ℕ → ℕ
max x y = if leb y x then x else y

abbrev pub max3 : ℕ → ℕ → ℕ → ℕ
max3 x y z = if max x y == x then max x z else max y z

-- The chain of tests for `max_count`.
unfoldable pub select_version : List Host → ℕ
select_version hosts =
    let c = λ (v : ℕ). count_version v hosts in
    let max_tcp = max3 (c nfs4_tcp) (c nfs3_tcp) (c nfs2_tcp) in
    let max_udp = max3 (c nfs4_udp) (c nfs3_udp) (c nfs2_udp) in
    let max_count = max max_tcp max_udp in
    if max_count == c nfs4_tcp
    then nfs4_tcp
    else if max_count == c nfs3_tcp
    then nfs3_tcp
    else if max_count == c nfs2_tcp
    then nfs2_tcp
    else if max_count == c nfs4_udp
    then nfs4_udp
    else if max_count == c nfs3_udp
    then nfs3_udp
    else if max_count == c nfs2_udp
    then nfs2_udp
    else 0

-- The loop that moves local hosts, and hosts that serve the version, to the new list.
unfoldable pub take_near : ℕ → List Host → (new : List Host) → List Host
unfolding add_host
take_near selected [] new = new
take_near selected (this ∷ next) new = take_near selected next (
    if has this.version selected || this.proximity == proximity_local
    then add_host (record this { version = selected }) new
    else new)

-- `prev && prev->ent_num == this->ent_num`
abbrev pub is_entry : Option ℕ → ℕ → Bool
is_entry none ent_num = false
is_entry (some prev) ent_num = prev == ent_num

-- A round of the loop over the rest of the list: for what the probe answers, and for the name of the
-- host. `prev` is the number of the entry of the host that was added last after a probe.
unfoldable pub answer_far :
    ℕ → (prev : Option ℕ) → Host → (new : List Host) → Option Host → Option ℕ × List Host
unfolding add_host
answer_far selected prev this new none = (prev, new)
answer_far selected prev this new (some host) =
    (some this.ent_num, add_host (record host { version = selected }) new)

unfoldable pub visit_far :
    Net → ℕ → (prev : Option ℕ) → Host → (new : List Host) → Option Bytes → Option ℕ × List Host
unfolding add_host answer_far get_supported_ver_and_cost
visit_far net selected prev this new none = (prev, add_host this new)
visit_far net selected prev this new (some name) =
    if net.use_hostname_for_mounts && is_entry prev this.ent_num
    then (prev, new)
    else answer_far selected prev this new (get_supported_ver_and_cost net this selected)

unfoldable pub take_far : Net → ℕ → (prev : Option ℕ) → List Host → (new : List Host) → List Host
unfolding visit_far
take_far net selected prev [] new = new
take_far net selected prev (this ∷ next) new =
    let r = visit_far net selected prev this new this.name in take_far net selected r.0 next r.1

-- `prune_host_list` from the selection of the version on.
unfoldable pub prune_selected : Net → (locals near far : List Host) → List Host
unfolding select_version take_near take_far
prune_selected net locals near far =
    let selected = select_version near in
    take_far net selected none far (take_near selected (locals ++ near) [])

-- No host is left to choose a version by.
unfoldable pub prune_probed : Net → (locals : List Host) → List Host × List Host → List Host
unfolding prune_selected
prune_probed net locals ([], far) = locals ++ far
prune_probed net locals (first ∷ near, far) = prune_selected net locals (first ∷ near) far

-- Is the list returned without a probe?
abbrev pub is_settled : (text_options : Bool) → List Host → Bool
is_settled text_options [] = true
is_settled true (_ ∷ _) = false
is_settled false (_ ∷ []) = true
is_settled false (_ ∷ _ ∷ _) = false

-- The list that `prune_host_list` leaves.
unfoldable pub prune_host_list : Net → (vers : ℕ) → List Host → List Host
unfolding span_local probe_near prune_probed
prune_host_list net vers list =
    let (locals, others) = span_local list in
    if is_settled net.text_options others
    then list
    else prune_probed net locals (probe_near net vers true (proximity_of others 0) others)
