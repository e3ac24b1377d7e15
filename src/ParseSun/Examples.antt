-- ===== src/ParseSun/Examples.antt =====
-- modules/parse_sun.c: the theorems at concrete entries, and runs of the functions.
use autofs.Prelude.{
  true, false, [], ◌∷◌, ◌++◌, Option, none, some, ◌≡◌, ◌↔◌, refl, arith, length, All,
}
use autofs.Text.{Bytes, codes, is_prefix}
use autofs.Macros.{Substvar}
use autofs.Cache.{Cache}
use autofs.Cache.Write.{cache_init, new_mapent}
use autofs.Cache.Steps.{cache_init-IsCache}
use autofs.ParseSubs.Quotes.{check_colon, dequote, strip_space, copy_unquoted, skipspace}
use autofs.ParseSubs.Words.{chunklen, chunk_loop}
use autofs.ParseSun.Expand.{expandsunent, key_text}
use autofs.ParseSun.Expand.Length.{WritesItsLength, expandsunent-length}
use autofs.ParseSun.Expand.Words.{location}
use autofs.ParseSun.Expand.Key.{dst_of, expand_key-word}
use autofs.ParseSun.Location.{validate_location, host_part, is_other, strchr}
use autofs.ParseSun.Location.Hosts.{IsHostName, split_names, validate_location_iff}
use autofs.ParseSun.Offsets.{Work, offset_mapent, list_offset, insert_prev}
use autofs.ParseSun.Offsets.Span.{span_space, span_loop}
use autofs.ParseSun.Entry.{
  undefined, parse_options, concat_options, asks_hosts, done, entry, parse_mapent,
}
use autofs.ParseSun.Entry.Locations.{Returns, IsAccepted, parse_mapent-IsAccepted}
use autofs.ParseSun.Entry.Ends.{Ends}
use autofs.ParseSun.Entry.Render.{join_global, parse_mapent-plain}
use autofs.ParseSun.Entry.Render.Blank.{IsPlainLocation}
use autofs.ParseSun.Mount.{
  gather_options, mnt_options_loop, add_mnt_options, join_mnt_options, core_of_entry, Context,
  parse_mount,
}
use autofs.ParseSun.Mount.Sound.{Sound, parse_mount-Sound}

abbrev no_var : Bytes → Option Substvar
no_var name = none

abbrev net : Context
net = record {
  findvar = no_var;
  optstr = none;
  slashify_colons = true;
  append_options = true;
  path = codes "/net";
  type = none;
  format_amd = false;
  signed = true;
  addr = λ n. n;
}

parse_mount-Sound_example :
    Returns Sound (parse_mount net (cache_init 3) (codes "a") (some (codes "-ro h:/e/&")))
parse_mount-Sound_example =
    parse_mount-Sound net (cache_init 3) (codes "a") (some (codes "-ro h:/e/&"))
      (cache_init-IsCache 3 (omega arith))

-- A cache with the entry of a multi mount, from the source 4.
abbrev multi : Cache
multi = record {
  size = 1;
  hash = (new_mapent 1 4 (codes "a") (some (codes "-ro / h:/e /b h:/f")) 7 ∷ []) ∷ [];
  ino_index = [] ∷ [];
}

expandsunent-length_example :
    WritesItsLength (expandsunent (codes "h:/&/$OS/${a") (codes "x y") no_var true)
expandsunent-length_example = expandsunent-length (codes "h:/&/$OS/${a") (codes "x y") no_var true

-- h:/e/&
expand_key-word_example :
    (dst_of (expandsunent (location (codes "h") (codes "e/") (b'&' ∷ [])) (codes "x y") no_var true)
      ≡ some (location (codes "h") (codes "e/") (key_text (codes "x y"))))
    × (chunklen (location (codes "h") (codes "e/") (key_text (codes "x y")) ++ codes " z") true
        ≡ some (length (location (codes "h") (codes "e/") (key_text (codes "x y")))))
    × (dequote true
          (location (codes "h") (codes "e/") (key_text (codes "x y")) ++ codes " z")
          (length (location (codes "h") (codes "e/") (key_text (codes "x y"))))
        ≡ some (location (codes "h") (codes "e/") (codes "x y")))
expand_key-word_example =
    expand_key-word (codes "h") (codes "e/") (codes "x y") (codes " z") no_var true true (refl, tt)
      (refl, (refl, tt)) (refl, (refl, (refl, tt))) refl

validate_location_iff_example :
    (validate_location (codes "a,b:/e") ≡ true) ↔ All IsHostName (split_names (codes "a,b"))
validate_location_iff_example =
    validate_location_iff b'a' (codes ",b") (codes "e") refl (refl, (refl, (refl, tt)))

parse_mapent-IsAccepted_example :
    Returns IsAccepted (parse_mapent (codes "h:/e g:/f /b") (some (codes "rw")))
parse_mapent-IsAccepted_example = parse_mapent-IsAccepted (codes "h:/e g:/f /b") (some (codes "rw"))

-- h:/e
abbrev h_e : Bytes × Bytes
h_e = (codes "h", codes "e")

h_e-IsPlainLocation : IsPlainLocation h_e
unfolding validate_location check_colon host_part is_prefix
h_e-IsPlainLocation = ((refl, tt), (refl, tt), refl, refl)

parse_mapent-plain_example :
    parse_mapent (codes "-ro h:/e h:/e") (some (codes "rw"))
    ≡ done
        (some (entry (some (join_global (codes "rw") (codes "ro"))) (some (codes "h:/e h:/e")) []))
parse_mapent-plain_example =
    parse_mapent-plain b'r' (codes "o") (codes "rw") h_e (h_e ∷ []) (refl, (refl, tt))
      (h_e-IsPlainLocation, (h_e-IsPlainLocation, tt))

-- A host name may not be missing, and what is no location with a colon is taken for a map name.
missing_host : validate_location (codes "a,,b:/e") ≡ false
unfolding validate_location check_colon host_part is_prefix
missing_host = refl

map_name : validate_location (codes "auto.home") ≡ true
unfolding validate_location check_colon is_other is_prefix strchr
map_name = refl

-- The options that are stored for an offset are cut at a blank when they are read again.
stored_options :
    parse_options (offset_mapent (codes "o=a b") (some (codes "h:/e"))) none
    ≡ done (codes " b h:/e", some (codes "o=a"))
unfolding parse_options offset_mapent chunklen chunk_loop dequote strip_space copy_unquoted
stored_options = refl

-- A backslash at the end of an offset is read past the end.
span_backslash : span_space (codes "/\\") 3 ≡ undefined
unfolding span_space span_loop
span_backslash = refl

-- The offsets /a and /a/b/c, and /a/b which is put in front of the shorter one.
abbrev work : Bytes → Work
work key = record { addr = length key; key = key }

list_offset_order :
    list_offset (work (codes "/a/b")) (work (codes "/a") ∷ work (codes "/a/b/c") ∷ [])
    ≡ work (codes "/a/b") ∷ work (codes "/a") ∷ work (codes "/a/b/c") ∷ []
unfolding list_offset insert_prev
list_offset_order = refl

-- Empty options that are not appended leave NULL.
empty_options : gather_options false (codes "rw") (codes "- h:/e") ≡ done (codes "h:/e", none)
unfolding gather_options mnt_options_loop parse_options chunklen chunk_loop dequote strip_space
    copy_unquoted skipspace add_mnt_options concat_options join_mnt_options
empty_options = refl

null_options : core_of_entry none (codes "h:/e") ≡ undefined
unfolding core_of_entry asks_hosts
null_options = refl
