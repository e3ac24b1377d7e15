-- ===== src/Mounts.antt =====
-- lib/mounts.c and include/mounts.h: the table of mounts with the counts of their users, and the lists
-- of mounted mounts of the automount points. A pointer to a mount is its path, which stands once in the
-- table; the counts are not cut to 32 bits.
pub mod Offsets
pub mod Tree
pub mod Expire
mod Examples
use Prim.Native.Nat.{bit_and, bit_or, bit_xor}
use autofs.Prelude.{
  ℕ, ◌+◌, ◌-◌, Bool, true, false, not, ◌&&◌, ◌||◌, List, [], ◌∷◌, ◌++◌, Option, none, some, ◌==◌,
  if◌then◌else◌, is_some,
}
use autofs.Text.{Bytes, equal, hash}

-- `struct mnt_list`; `mount` is the automount point on whose list of mounts it stands.
pub record MntList : Type 0 where
  pub mp : Bytes
  pub flags : ℕ
  pub ref : ℕ
  pub mount : Option ℕ

-- `mnts_hash`, and `mounts` of each automount point.
pub record Mounts : Type 0 where
  pub mnts_hash : ℕ → List MntList
  pub mounts : ℕ → List Bytes

-- MNTS_MOUNTED
abbrev pub mnts_mounted : ℕ
mnts_mounted = 0x0080

unfoldable pub has_flag : ℕ → ℕ → Bool
has_flag flags flag = not (bit_and flags flag == 0)

-- `HASH_SIZE(mnts_hash)` is 2 to the power of MNTS_HASH_BITS.
abbrev pub bucket_of : Bytes → ℕ
bucket_of mp = hash mp 128

-- `!strcmp(this->mp, mp) && this->ref`
abbrev pub is_mount : Bytes → MntList → Bool
is_mount mp this = equal mp this.mp && not (this.ref == 0)

unfoldable pub find_mount : Bytes → List MntList → Option MntList
find_mount mp [] = none
find_mount mp (this ∷ next) = if is_mount mp this then some this else find_mount mp next

unfoldable pub mnts_lookup : Mounts → Bytes → Option MntList
unfolding find_mount
mnts_lookup m mp = find_mount mp (m.mnts_hash (bucket_of mp))

-- A write to a mount, and its removal from the table.
unfoldable pub change_mount : (MntList → MntList) → Bytes → List MntList → List MntList
change_mount f mp [] = []
change_mount f mp (this ∷ next) =
    if is_mount mp this then f this ∷ next else this ∷ change_mount f mp next

unfoldable pub remove_mount : Bytes → List MntList → List MntList
remove_mount mp [] = []
remove_mount mp (this ∷ next) = if is_mount mp this then next else this ∷ remove_mount mp next

abbrev pub set_bucket : Bytes → List MntList → Mounts → Mounts
set_bucket mp l m = record m { mnts_hash = λ i. if i == bucket_of mp then l else m.mnts_hash i }

unfoldable pub update_mount : (MntList → MntList) → Bytes → Mounts → Mounts
unfolding change_mount
update_mount f mp m = set_bucket mp (change_mount f mp (m.mnts_hash (bucket_of mp))) m

-- `__mnts_get_mount`
unfoldable pub get_mount : Bytes → Mounts → Mounts
unfolding update_mount
get_mount mp m = update_mount (λ this. record this { ref = this.ref + 1 }) mp m

-- `__mnts_put_mount`, for the mount that the path finds.
unfoldable pub put_found : Bytes → Mounts → Option MntList → Mounts
unfolding update_mount remove_mount
put_found mp m none = m
put_found mp m (some this) =
    if this.ref == 1
    then set_bucket mp (remove_mount mp (m.mnts_hash (bucket_of mp))) m
    else update_mount (λ this. record this { ref = this.ref - 1 }) mp m

unfoldable pub put_mount : Bytes → Mounts → Mounts
unfolding put_found
put_mount mp m = put_found mp m (mnts_lookup m mp)

-- `mnts_alloc_mount`
abbrev pub new_mount : Bytes → MntList
new_mount mp = record { mp = mp; flags = 0; ref = 1; mount = none }

-- `mnts_get_mount` and `mnts_new_mount`: is there a mount, and the table.
unfoldable pub mnts_get_mount : (alloc : Bool) → Bytes → Mounts → Bool × Mounts
unfolding get_mount
mnts_get_mount alloc mp m =
    if is_some (mnts_lookup m mp)
    then (true, get_mount mp m)
    else if not alloc
    then (false, m)
    else (true, set_bucket mp (new_mount mp ∷ m.mnts_hash (bucket_of mp)) m)

-- The path of a mount of a point with the path `ap_path`.
abbrev pub mount_path : (ap_path name : Bytes) → Bytes
mount_path ap_path [] = ap_path ++ b'/' ∷ []
mount_path ap_path (c ∷ s) = if c == b'/' then c ∷ s else ap_path ++ (b'/' ∷ c ∷ s)

-- `list_add` to the list of mounts of the point.
abbrev pub list_mount : (ap : ℕ) → Bytes → Mounts → Mounts
list_mount ap mp m = record (update_mount (λ this. record this { mount = some ap }) mp m) {
  mounts = λ i. if i == ap then mp ∷ m.mounts i else m.mounts i;
}

-- The end of `mnts_add_mount`, for the mount with its flags.
unfoldable pub list_if_mounted : (ap : ℕ) → Bytes → Mounts → Option MntList → Mounts
unfolding has_flag update_mount
list_if_mounted ap mp m none = m
list_if_mounted ap mp m (some this) =
    if has_flag this.flags mnts_mounted && not (is_some this.mount) then list_mount ap mp m else m

unfoldable pub mnts_add_mount :
    (alloc : Bool) → (ap : ℕ) (ap_path name : Bytes) (flags : ℕ) → Mounts → Bool × Mounts
unfolding mnts_get_mount list_if_mounted update_mount
mnts_add_mount alloc ap ap_path name flags m =
    let mp = mount_path ap_path name in
    let r = mnts_get_mount alloc mp m in
    if not alloc || not r.0
    then (false, m)
    else let m' = update_mount (λ this. record this { flags = bit_or this.flags flags }) mp r.1 in
      (true, list_if_mounted ap mp m' (mnts_lookup m' mp))

abbrev pub erase_path : Bytes → List Bytes → List Bytes
erase_path mp [] = []
erase_path mp (p ∷ next) = if equal mp p then next else p ∷ erase_path mp next

-- `list_del_init(&this->mount)`
abbrev pub unlist_mount : Bytes → Option ℕ → Mounts → Mounts
unlist_mount mp none m = m
unlist_mount mp (some ap) m = record (update_mount (λ this. record this { mount = none }) mp m) {
  mounts = λ i. if i == ap then erase_path mp (m.mounts i) else m.mounts i;
}

-- `mnts_remove_mount` for what the search finds.
unfoldable pub remove_found : Bytes → (flags : ℕ) → Mounts → Option MntList → Mounts
unfolding put_mount has_flag update_mount
remove_found mp flags m none = m
remove_found mp flags m (some this) =
    if not (has_flag this.flags flags)
    then m
    else let left = bit_xor this.flags (bit_and this.flags flags) in
      let m' = update_mount (λ this. record this { flags = left }) mp m in
      put_mount mp (if has_flag left mnts_mounted then m' else unlist_mount mp this.mount m')

unfoldable pub mnts_remove_mount : Bytes → (flags : ℕ) → Mounts → Mounts
unfolding remove_found
mnts_remove_mount mp flags m = remove_found mp flags m (mnts_lookup m mp)

unfoldable pub mnts_has_mounted_mounts : (ap : ℕ) → Mounts → Bool
mnts_has_mounted_mounts ap m = elim (m.mounts ap) [ [] ↦ false | _ ∷ _ ↦ true ]
