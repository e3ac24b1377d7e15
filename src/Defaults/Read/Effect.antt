-- ===== src/Defaults/Read/Effect.antt =====
-- lib/defaults.c: what a file leaves in the table.
use autofs.Prelude.{
  ℕ, ◌≤◌, true, false, List, [], ◌∷◌, ◌++◌, none, some, ◌≡◌, refl, ap, ◌∙◌, arith, length, ltb,
}
use autofs.Text.{Bytes, codes, equal_nocase}
use autofs.Defaults.{
  Config, path_max, or_global, conf_lookup, conf_update, conf_get_string, option_value,
  check_set_config_value,
}
use autofs.Defaults.Table.{conf_update-IsUpdated}
use autofs.Defaults.Read.{
  Reading, setting, parse_line, is_among, ignored_names, max_line_len, read_parsed, read_line,
  read_lines, read_config,
}

read_lines-append :
    (lines later : List Bytes) (r : Reading)
    → read_lines true (lines ++ later) r ≡ read_lines true later (read_lines true lines r)
unfolding read_lines
read_lines-append [] later r = refl
read_lines-append (l ∷ lines) later r = read_lines-append lines later (read_line true l r)

ltb-false : (a b : ℕ) → b ≤ a → ltb a b ≡ false
ltb-false a b h = ground arith

-- What a line that makes a setting does, where the setting is an update.
read_line_setting :
    (line key value : Bytes) (r : Reading)
    → length line ≤ max_line_len
    → parse_line line ≡ setting key value
    → is_among key ignored_names ≡ false
    → equal_nocase key (codes "ldap_uri") ≡ false
    → equal_nocase key (codes "search_base") ≡ false
    → read_line true line r ≡ (r.0, (conf_update true r.1 (or_global r.0) key (some value) 0).1)
unfolding read_line
read_line_setting line key value (new_sec, config) h p i u b =
    rw (ltb-false max_line_len (length line) h, p)
      (unfold read_parsed check_set_config_value in rw (i, u, b) refl)

-- The last line of a file counts: where there is memory, the line and its key are not too long, and it
-- makes a setting that is neither ignored nor collected, the section that the file is in has the value
-- for the key, whatever stood in the table and in the file.
pub read_config_last :
    (lines : List Bytes) (line key value : Bytes) (config : Config)
    → length line ≤ max_line_len
    → length key ≤ path_max
    → parse_line line ≡ setting key value
    → is_among key ignored_names ≡ false
    → equal_nocase key (codes "ldap_uri") ≡ false
    → equal_nocase key (codes "search_base") ≡ false
    → let section = or_global (read_lines true lines (none, config)).0 in
      conf_get_string (read_config true (lines ++ line ∷ []) config) section key ≡ some value
unfolding read_config conf_get_string
read_config_last lines line key value config h l p i u b =
    let r = read_lines true lines (none, config) in
    let (_, updated) = conf_update-IsUpdated r.1 (or_global r.0) key (some value) 0 l in
    let (co, found, v, _) = updated in
    ap (λ s. option_value (conf_lookup s.1 (or_global r.0) key))
      (read_lines-append lines (line ∷ []) (none, config)
        ∙ unfold read_lines in read_line_setting line key value r h p i u b)
    ∙ ap option_value found
    ∙ v
