-- ===== src/ParseSun.antt =====
-- modules/parse_sun.c: the entries of a Sun map. A position in a text is the text from there on. All
-- memory that is asked for is there.
pub mod Expand
pub mod Location
pub mod Entry
pub mod Offsets
pub mod Mount
mod Examples
