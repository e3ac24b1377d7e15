-- ===== src/Lib.antt =====
-- The core of the automount daemon: the queue of alarms (lib/alarm.c), the state machine of the
-- automount points (daemon/state.c, include/state.h), the cache of map entries (lib/cache.c,
-- include/automount.h, include/hash.h), the cleaning and unquoting of texts (lib/parse_subs.c), the
-- substitution variables (lib/macros.c and a part of lib/mounts.c), the hosts of replicated mounts
-- (modules/replicated.c, include/replicated.h), the configuration (lib/defaults.c), the table of
-- mounts (lib/mounts.c, include/mounts.h) and the entries of Sun maps (modules/parse_sun.c).
--
-- How they interact: the alarm handler adds the task ST_EXPIRE for a point when its alarm is due. The
-- handler of state.c takes tasks off its queue, starts a thread for each, and learns of its end by
-- `expire_cleanup` or `do_readmap_cleanup`, which may add an alarm by `conditional_alarm_add` and the
-- next task. The threads read maps into the cache and walk it. When a key is mounted, its map entry is
-- expanded with the key and the variables and parsed into options and locations; the offsets of a multi
-- mount go into the cache. The variables are also put into the environment of programs, and the hosts
-- of the entry are ordered and pruned before the mount.
--
-- Prelude and its children hold tests and lists over the native numbers. Text has C strings and `hash`.
--
-- Alarm has the list of alarms with `__alarm_add` (alarm_add, insert), `__alarm_exists`, `alarm_delete`,
-- `conditional_alarm_add` and a round of the loop of `alarm_handler`. Alarm.Order is about the order of
-- the list and the handler, Alarm.Cancel about deletion and wake-ups.
--
-- State has the data of the machine: a World holds the points, the queue of `struct state_queue`, the
-- alarms, the threads started and the failed assertions (`assert` logs and goes on). State.Queue has the
-- functions on the queue alone, State.Run `run_state_task` and the functions it calls, State.Add the
-- functions that other threads call, State.Handler the loops of `st_queue_handler`. Every step of
-- State.System is what one thread does while it holds the lock of the queue, so an interleaving of
-- threads is a sequence of steps. State.First, State.Invariant, State.Handler.Rules, Effect, Ends,
-- Places, Keeps and Promote hold lemmas and theorems about them, State.Outcome, State.Requests and State.Submount
-- theorems about points, requests and the end of a prune.
--
-- Cache has the entries, the chains and the functions that only read. Cache.Write has the stack of saved
-- entries and `cache_add`, Cache.Update `cache_update` and what builds on it, Cache.Delete `cache_delete` and
-- the inode index. A pointer to an entry is the rest of its chain; a write goes by the address of the
-- entry. Cache.Walk is about enumeration, Cache.NextKey, Cache.Last and Cache.Order about entries of one
-- key, Cache.Deleted about deletion, Cache.PushPop about saved entries, and Cache.Keeps, Cache.Steps,
-- Cache.Updates and Cache.System about what every operation keeps. Cache.Source is about caches with the
-- entries of one map source.
--
-- ParseSubs has `sanitize_path` and its loop, ParseSubs.Sanitize the theorems about it. ParseSubs.Quotes has
-- `dequote` and the functions on words, ParseSubs.Quotes.Escaped is about escaped texts. ParseSubs.Words
-- has `chunklen`, with Bounds and Plain about it.
--
-- ParseSun has the entries of Sun maps. ParseSun.Expand has `expandsunent`, with Length, Words and Key about
-- it; ParseSun.Location `validate_location`, with Hosts about it; ParseSun.Entry `parse_options`,
-- `concat_options`, `parse_mapent` and `check_is_multi`, with Ends, Multi, Behind, Locations and Render
-- about them. ParseSun.Offsets has `update_offset_entry` and the loop over the offsets of a multi mount on
-- the cache, with `span_space` in Span, and Rounds and Keeps about them. ParseSun.Mount has
-- `parse_mount` up to the calls of `mount_subtree` and `sun_mount`, which are values of its result, with Ends and Sound about it.
-- An outcome says whether a function returns, runs out of fuel, or is undefined: it reads past the end
-- of a text or at NULL. A loop of the cache that does not end counts as one that runs out of fuel.
--
-- Macros has the tables of variables: the system table and the local ones, with `macro_findvar`,
-- `macro_setenv` and the functions that add and remove variables. Macros.Lookup and Macros.Local are about
-- one table, Macros.Environment about both, Macros.Standard has the standard variables of lib/mounts.c
-- (`addstdenv`, `removestdenv`, `add_std_amd_vars`). A table is a list; a caller sees the changes that it is
-- handed back.
--
-- Replicated has the list of hosts and what adds to it (`add_host`, `add_host_addrs`, `add_local_path`),
-- Replicated.Order is about its order, Replicated.Prune has the probes and `prune_host_list`,
-- Replicated.Prune.Chosen and Replicated.Prune.Kept are about the version that it selects and the hosts
-- that it keeps. Replicated.Steps is about lists through all these operations.
--
-- Defaults has the table of settings of lib/defaults.c (`conf_add`, `conf_update`, `conf_delete` and the
-- searches), where the chains are a function of the hash. Defaults.Table and Defaults.Deleted
-- are about its changes, Defaults.Read has `parse_line` and the loop of `read_config`, Defaults.Read.Layout and
-- Defaults.Read.Effect the theorems about them. Every daemon part reads its settings there.
--
-- Mounts has the table of mounts of lib/mounts.c with the counts of their users, Mounts.Tree the search
-- trees, Mounts.Expire the list that an expire thread works on. Mounts.Expire.Order is about its order and
-- members, Mounts.Expire.Users about the counts. Mounts.Offsets has the comparison and the traversal of the trees of
-- offsets, with Order and Visits about them. A pointer to a mount is its path.
--
-- Examples of each part apply the theorems to concrete data.
--
-- Loops over lists are structural. The handler's loops, `st_wait_task`, `cache_lookup_key_next` and the
-- searches of `cache_add` and `cache_update` run on fuel and give none where it runs out. The handler
-- needs the square of one more than the number of tasks, `st_wait_task` 5 rounds a second, and the
-- searches one round for each entry from the first one found on. The loops over a map entry have fuel for
-- its length, since each round takes a byte. Numbers are ℕ; `hash` and `ino_hash` cut to 32 bits as the code does. Clocks and counters of
-- seconds and of users are not cut.
--
-- Parameters: the clock, the outcome of malloc and pthread_create, the answer of askumount and of
-- mnts_has_mounted_mounts, the build options ENABLE_IGNORE_BUSY_MOUNTS and ENABLE_EXT_ENV, the
-- environment, the configured names of amd, and for the hosts the answers of getaddrinfo,
-- get_proximity, get_nfs_info and the RPC functions that a probe calls; the lines that fgets reads and atoi; the search of
-- variables and the addresses of new entries in parse_sun.c, where all memory that is asked for is there.
--
-- Not modelled: the locks themselves, logging, freeing of memory, the links of the trees of multi mounts, and in
-- daemon/state.c `do_readmap`, `do_readmap_mount`, `st_wait_state` and the start of the handler's thread.
-- In the files of the variables and hosts: `macro_init`, `parse_location` and the RPC calls; of the
-- configuration the built-in values and the lists of LDAP addresses; of
-- lib/mounts.c the mounting and the deletion of offsets, submounts and amd mounts, and what reads /proc.
-- Of modules/parse_sun.c: `parse_init`, and what calls programs that mount.
-- Outside these files: reading maps (modules, daemon/lookup.c, daemon/master.c), mounting, and
-- the talk with the kernel, which is I/O.
pub mod Prelude
pub mod Alarm
pub mod Text
pub mod Cache
pub mod State
pub mod ParseSubs
pub mod Macros
pub mod Replicated
pub mod Defaults
pub mod Mounts
pub mod ParseSun
