-- ===== src/Defaults/Read.antt =====
-- lib/defaults.c: the lines of a configuration file.
pub mod Layout
pub mod Effect
use autofs.Prelude.{
  ℕ, Bool, false, ◌&&◌, ◌||◌, List, [], ◌∷◌, Option, none, some, ◌==◌, if◌then◌else◌, ltb, leb,
  length,
}
use autofs.Text.{Bytes, codes, equal_nocase}
use autofs.Defaults.{Config, conf_update, check_set_config_value}

abbrev pub is_blank : ℕ → Bool
is_blank c = c == b' ' || c == 9

abbrev pub is_alpha : ℕ → Bool
is_alpha c = leb b'a' c && leb c b'z' || leb b'A' c && leb c b'Z'

abbrev pub is_quote : ℕ → Bool
is_quote c = c == b'"' || is_blank c

unfoldable pub drop_while : (ℕ → Bool) → Bytes → Bytes
drop_while p [] = []
drop_while p (c ∷ s) = if p c then drop_while p s else c ∷ s

abbrev pub cons_unless : (ℕ → Bool) → ℕ → Bytes → Bytes
cons_unless p c [] = if p c then [] else c ∷ []
cons_unless p c (d ∷ s) = c ∷ d ∷ s

-- The loops that go back from the end of a text and cut it.
unfoldable pub trim_end : (ℕ → Bool) → Bytes → Bytes
trim_end p [] = []
trim_end p (c ∷ s) = cons_unless p c (trim_end p s)

-- The text before and behind the byte that `strchr` finds.
unfoldable pub split_at : ℕ → Bytes → Option (Bytes × Bytes)
split_at b [] = none
split_at b (c ∷ s) =
    let rest = split_at b s in
    if c == b
    then some ([], s)
    else elim rest [ none ↦ none | some (before, behind) ↦ some (c ∷ before, behind) ]

-- The newline that `fgets` leaves at the end.
unfoldable pub cut_newline : Bytes → Bytes
cut_newline [] = []
cut_newline (c ∷ []) = if c == 10 then [] else c ∷ []
cut_newline (c ∷ d ∷ s) = c ∷ cut_newline (d ∷ s)

-- What a line says.
pub data Line : Type 0 where
  nothing_said : Line
  in_section : Bytes → Line
  setting : (res value : Bytes) → Line

-- The end of a value, for what `strchr(val, '#')` finds: a comment is cut off only together with a
-- quote or blank in front of it.
unfoldable pub cut_trailer : Bytes → Option (Bytes × Bytes) → Bytes
unfolding trim_end
cut_trailer val none = trim_end is_quote val
cut_trailer val (some (before, _)) =
    let kept = trim_end is_quote before in if length kept == length before then val else kept

unfoldable pub parse_value : Bytes → Bytes
unfolding drop_while cut_newline cut_trailer split_at
parse_value val = let v = cut_newline (drop_while is_quote val) in cut_trailer v (split_at b'#' v)

-- `parse_line` for what `strchr(key, ']')` and `strchr(key, '=')` find.
unfoldable pub section_line : Option (Bytes × Bytes) → Line
unfolding trim_end
section_line none = nothing_said
section_line (some (before, _)) = in_section (trim_end is_blank before)

unfoldable pub setting_line : Option (Bytes × Bytes) → Line
unfolding trim_end parse_value
setting_line none = nothing_said
setting_line (some (before, val)) = setting (trim_end is_blank before) (parse_value val)

-- `parse_line`; the loop over leading blanks has nothing to do behind the first test.
unfoldable pub parse_line : Bytes → Line
unfolding drop_while split_at section_line setting_line
parse_line [] = nothing_said
parse_line (c ∷ s) =
    if c == b'['
    then section_line (split_at b']' (drop_while (λ b. b == b'[' || is_blank b) (c ∷ s)))
    else if is_alpha c
    then setting_line (split_at b'=' (c ∷ s))
    else nothing_said

-- The names that are reported and ignored.
abbrev pub ignored_names : List Bytes
ignored_names =
    codes "mount_type"
    ∷ codes "pid_file"
    ∷ codes "restart_mounts"
    ∷ codes "use_tcpwrappers"
    ∷ codes "auto_attrcache"
    ∷ codes "print_pid"
    ∷ codes "print_version"
    ∷ codes "log_file"
    ∷ codes "preferred_amq_port"
    ∷ codes "truncate_log"
    ∷ codes "debug_mtab_file"
    ∷ codes "debug_options"
    ∷ codes "sun_map_syntax"
    ∷ codes "portmap_program"
    ∷ codes "nfs_vers"
    ∷ codes "nfs_vers_ping"
    ∷ codes "nfs_proto"
    ∷ codes "nfs_allow_any_interface"
    ∷ codes "nfs_allow_insecure_port"
    ∷ codes "nfs_retransmit_counter"
    ∷ codes "nfs_retransmit_counter_udp"
    ∷ codes "nfs_retransmit_counter_tcp"
    ∷ codes "nfs_retransmit_counter_toplvl"
    ∷ codes "nfs_retry_interval"
    ∷ codes "nfs_retry_interval_udp"
    ∷ codes "nfs_retry_interval_tcp"
    ∷ codes "nfs_retry_interval_toplvl"
    ∷ codes "ldap_cache_maxmem"
    ∷ codes "ldap_cache_seconds"
    ∷ codes "ldap_proto_version"
    ∷ codes "show_statfs_entries"
    ∷ codes "cache_duration"
    ∷ codes "map_reload_interval"
    ∷ codes "map_options"
    ∷ codes "plock"
    ∷ []

unfoldable pub is_among : Bytes → List Bytes → Bool
is_among res [] = false
is_among res (name ∷ names) = equal_nocase res name || is_among res names

abbrev pub max_line_len : ℕ
max_line_len = 256

-- `new_sec` and the configuration.
abbrev pub Reading : Type 0
Reading = Option Bytes × Config

unfoldable pub read_parsed : (alloc : Bool) → Line → Reading → Reading
unfolding is_among conf_update check_set_config_value
read_parsed alloc nothing_said (new_sec, config) = (new_sec, config)
read_parsed alloc (in_section sec) (new_sec, config) =
    (some sec, (conf_update alloc config sec sec none 0).1)
read_parsed alloc (setting res value) (new_sec, config) =
    if is_among res ignored_names
    then (new_sec, config)
    else (new_sec, (check_set_config_value alloc config new_sec res (some value)).1)

-- A round of the loop of `read_config`.
unfoldable pub read_line : (alloc : Bool) → Bytes → Reading → Reading
unfolding parse_line read_parsed
read_line alloc res r =
    if ltb max_line_len (length res) then r else read_parsed alloc (parse_line res) r

unfoldable pub read_lines : (alloc : Bool) → List Bytes → Reading → Reading
unfolding read_line
read_lines alloc [] r = r
read_lines alloc (res ∷ lines) r = read_lines alloc lines (read_line alloc res r)

-- `read_config`, for what the calls of `fgets` answer.
unfoldable pub read_config : (alloc : Bool) → List Bytes → Config → Config
unfolding read_lines
read_config alloc lines config = (read_lines alloc lines (none, config)).1
