-- ===== src/ParseSun/Mount/Ends.antt =====
-- modules/parse_sun.c: parse_mount ends.
use autofs.Cache.{Cache}
use autofs.ParseSun.Entry.Ends.{Ends}
use autofs.ParseSun.Offsets.{}
