-- ===== src/Defaults/Examples.antt =====
-- lib/defaults.c: the theorems at concrete settings.
use autofs.Prelude.{true, [], ◌∷◌, ◌++◌, none, some, ◌≡◌, refl, arith}
use autofs.Text.{codes, equal, lower, equal_nocase}
use autofs.Defaults.{
  ConfOption, Config, get_hash, conf_update, conf_delete, conf_get_string, wanted_value,
}
use autofs.Defaults.Table.{IsUpdated, conf_update-conf_lookup}
use autofs.Defaults.Deleted.{options_of, erase_key, conf_delete-options_of}
use autofs.Defaults.Read.{setting, parse_line, read_config, read_lines, trim_end, is_among}
use autofs.Defaults.Read.Layout.{parse_line_layout}
use autofs.Defaults.Read.Effect.{read_config_last}

abbrev timeout_option : ConfOption
timeout_option = record {
  section = codes "autofs";
  name = codes "timeout";
  value = some (codes "300");
  flags = 0;
}

abbrev amd_option : ConfOption
amd_option = record { section = codes "amd"; name = codes "TimeOut"; value = none; flags = 0 }

-- The other section's entry stands in front on the same chain.
abbrev two_sections : Config
two_sections = record {
  hash = λ _. amd_option ∷ timeout_option ∷ [];
  environ = λ _. some (codes "600");
}

conf_update-conf_lookup_example :
    let r =
      conf_update true two_sections (codes "autofs") (codes "TIMEOUT") (some (codes "60")) 1 in
    (r.0 ≡ true)
    × IsUpdated two_sections r.1 (codes "autofs") (codes "TIMEOUT") (some (codes "600"))
unfolding wanted_value
conf_update-conf_lookup_example =
    conf_update-conf_lookup two_sections (codes "autofs") (codes "TIMEOUT") (some (codes "60")) 1
      (omega arith)

conf_delete-options_of_example :
    options_of (codes "autofs") (
      (conf_delete two_sections (codes "autofs") (codes "timeout")).hash
        (get_hash (codes "timeout")))
    ≡ []
unfolding options_of erase_key equal_nocase equal lower
conf_delete-options_of_example =
    conf_delete-options_of two_sections (codes "autofs") (codes "timeout")

-- timeout = "300"
parse_line_layout_example :
    parse_line (codes "timeout = \"300\"" ++ 10 ∷ []) ≡ setting (codes "timeout") (codes "300")
unfolding trim_end
parse_line_layout_example =
    parse_line_layout b't' (codes "imeout") (codes " ") (codes " \"") b'3' (codes "00") (codes "\"")
      refl (ground arith) refl (refl, tt) (refl, (refl, tt)) refl (ground arith) refl (refl, tt)

read_config_last_example :
    conf_get_string
      (read_config true (codes "[ amd ]" ∷ codes "timeout=5" ∷ []) two_sections)
      (codes "amd")
      (codes "timeout")
    ≡ some (codes "5")
unfolding read_lines parse_line is_among equal_nocase equal lower
read_config_last_example =
    read_config_last (codes "[ amd ]" ∷ []) (codes "timeout=5") (codes "timeout") (codes "5")
      two_sections (omega arith) (omega arith) refl refl refl refl
