-- ===== src/Defaults/Deleted.antt =====
-- lib/defaults.c: what `conf_delete` takes off a chain.
use autofs.Prelude.{true, List, [], ◌∷◌, ◌++◌, ◌≡◌, refl, ap, ◌∙◌, arith, if◌then◌else◌}
use mathlib.Core.List.{append_assoc}
use autofs.Text.{Bytes, equal_nocase}
use autofs.Defaults.{ConfOption, Config, get_hash, is_option, unlink_option, conf_delete}

-- The entries of a section.
unfoldable pub options_of : Bytes → List ConfOption → List ConfOption
options_of section [] = []
options_of section (co ∷ next) =
    if equal_nocase section co.section
    then co ∷ options_of section next
    else options_of section next

-- The list without the first entry that has the key.
unfoldable pub erase_key : Bytes → List ConfOption → List ConfOption
erase_key key [] = []
erase_key key (co ∷ next) = if equal_nocase key co.name then next else co ∷ erase_key key next

options_of-append :
    (s : Bytes) (l l' : List ConfOption)
    → options_of s (l ++ l') ≡ options_of s l ++ options_of s l'
unfolding options_of
options_of-append s [] l' = refl
options_of-append s (co ∷ l) l' = ground (arith, options_of-append s l l')

options_of-nil : (s : Bytes) → options_of s [] ≡ []
unfolding options_of
options_of-nil s = refl

options_of-cons :
    (s : Bytes) (co : ConfOption) (l : List ConfOption)
    → options_of s (co ∷ l)
      ≡ (if equal_nocase s co.section then co ∷ options_of s l else options_of s l)
unfolding options_of
options_of-cons s co l = refl

-- The entry behind a list that has none of the section.
options_of-snoc :
    (s : Bytes) (skipped : List ConfOption) (co : ConfOption)
    → options_of s skipped ≡ []
    → options_of s (skipped ++ co ∷ []) ≡ options_of s (co ∷ [])
options_of-snoc s skipped co h =
    options_of-append s skipped (co ∷ []) ∙ ap (λ l. l ++ options_of s (co ∷ [])) h

options_of-kept :
    (s : Bytes) (kept skipped l : List ConfOption) (co : ConfOption)
    → options_of s skipped ≡ []
    → equal_nocase s co.section ≡ true
    → options_of s (kept ++ (skipped ++ co ∷ [])) ++ l ≡ options_of s kept ++ co ∷ l
options_of-kept s kept skipped l co h e =
    rw
      (
        options_of-append s kept (skipped ++ co ∷ []),
        options_of-snoc s skipped co h,
        options_of-cons s co [],
        e,
        append_assoc (options_of s kept) (co ∷ options_of s []) l,
      )
      (unfold options_of in refl)

erase_key-cons :
    (k : Bytes) (co : ConfOption) (l : List ConfOption)
    → erase_key k (co ∷ l) ≡ (if equal_nocase k co.name then l else co ∷ erase_key k l)
unfolding erase_key
erase_key-cons k co l = refl

-- The section's entries after the loop, where none is behind `last`.
options_of-unlink_option :
    (s k : Bytes) (kept skipped l : List ConfOption)
    → options_of s skipped ≡ []
    → options_of s (unlink_option s k kept skipped l)
      ≡ options_of s kept ++ erase_key k (options_of s l)
unfolding unlink_option
options_of-unlink_option s k kept skipped [] h =
    options_of-append s kept skipped
    ∙ ap (λ l. options_of s kept ++ l) (h ∙ unfold options_of erase_key in refl)
options_of-unlink_option s k kept skipped (co ∷ next) h = ground (
  arith,
  options_of-unlink_option s k kept (skipped ++ co ∷ []) next,
  options_of-unlink_option s k (kept ++ (skipped ++ co ∷ [])) [] next,
  options_of-snoc s skipped co h,
  options_of-cons s co next,
  options_of-cons s co [],
  options_of-nil s,
  erase_key-cons k co (options_of s next),
  options_of-append s kept next,
  options_of-kept s kept skipped (erase_key k (options_of s next)) co h,
)

erase_key-nil : (k : Bytes) → erase_key k [] ≡ []
unfolding erase_key
erase_key-nil k = refl

chain-conf_delete :
    (config : Config) (section key : Bytes)
    → (conf_delete config section key).hash (get_hash key)
      ≡ unlink_option section key [] [] (config.hash (get_hash key))
unfolding conf_delete
chain-conf_delete config section key = ground arith

-- Of the entries of its own section a deletion takes off the first one that has the key, and no other.
pub conf_delete-options_of :
    (config : Config) (section key : Bytes)
    → let h = get_hash key in
      options_of section ((conf_delete config section key).hash h)
      ≡ erase_key key (options_of section (config.hash h))
conf_delete-options_of config section key =
    rw
      (
        chain-conf_delete config section key,
        options_of-unlink_option section key [] [] (config.hash (get_hash key))
            (options_of-nil section),
        options_of-nil section,
      )
      refl

unlink_option_lost :
    (s k : Bytes) (kept skipped others : List ConfOption) (co : ConfOption) (next : List ConfOption)
    → options_of s others ≡ []
    → is_option s k co ≡ true
    → unlink_option s k kept skipped (others ++ co ∷ next) ≡ kept ++ next
unfolding unlink_option options_of
unlink_option_lost s k kept skipped [] co next h e = ground arith
unlink_option_lost s k kept skipped (o ∷ others) co next h e =
    ground (arith, unlink_option_lost s k kept (skipped ++ o ∷ []) others co next)

-- Where entries of other sections stand in front of the first entry of a section on its chain, the
-- deletion of that entry takes them off too.
pub conf_delete_lost :
    (config : Config) (section key : Bytes) (others : List ConfOption) (co : ConfOption)
    (next : List ConfOption)
    → config.hash (get_hash key) ≡ others ++ co ∷ next
    → options_of section others ≡ []
    → is_option section key co ≡ true
    → (conf_delete config section key).hash (get_hash key) ≡ next
conf_delete_lost config section key others co next c h e =
    chain-conf_delete config section key
    ∙ ap (unlink_option section key [] []) c
    ∙ unlink_option_lost section key [] [] others co next h e
