-- ===== src/Ui/Persistence/SettingWriters.antt =====
-- store/ui.persistence.ts: writing a setting changes what is read of it, and nothing else.
use klustr.Prelude.{
  refl, ◌≡◌, ◌≢◌, ◌∙◌, ap, String, Bool-cases, inl, inr, Bool, true, false, Option, none, some,
  List, [], ◌∷◌, arith, ◌==◌, eq_iff,
}
use klustr.Prelude.Numerals.{decimal, ℤ, pos, negsuc}
use klustr.Prelude.Numerals.RoundTrip.{parse_int-decimal, decimal-nonempty}
use klustr.Dict
use klustr.Dict.{Dict}
use klustr.Storage.{text, Storage, JsonText}
use klustr.Ui.Types.{SidebarMode, expanded, icons, LastSession}
use klustr.Ui.Contexts.{nonempty_name}
use klustr.Ui.Themes.{themes, is_theme_id}
use klustr.Ui.Persistence.{
  theme_storage_key, collapsed_nav_groups_key, expanded_crd_groups_key, sidebar_mode_key,
  default_context_key, global_read_only_key, sidebar_width_key, clamp_sidebar_width, store_session,
  persist_theme_id, persist_sidebar_mode, persist_sidebar_width, persist_collapsed_nav_groups,
  persist_expanded_crd_groups, persist_default_context, persist_global_read_only,
  persist_last_session,
}
use klustr.Ui.Persistence.Read.{
  read_saved_theme_id, read_sidebar_mode, read_default_context, read_global_read_only,
  read_sidebar_width,
}
use klustr.Ui.Persistence.RoundTrip.{read_text-put, read_text-remove, read-persist_string_arrays}
use klustr.Ui.Persistence.Settings.{stored, stored-put, stored-remove}

clamp-clamp : (px : ℤ) → clamp_sidebar_width (pos (clamp_sidebar_width px)) ≡ clamp_sidebar_width px
unfolding clamp_sidebar_width
clamp-clamp (pos n) = ground arith
clamp-clamp (negsuc n) = ground arith

is_theme_id-nonempty : (id : String) → is_theme_id id ≡ true → id ≢ ""
unfolding is_theme_id themes
is_theme_id-nonempty id known e = absurd cc (known, ap is_theme_id e)

module _ (jt : JsonText) where
  module _ (s : Storage) where
    -- What a reader finds after its own writer.
    read-persist_mode :
        (mode : SidebarMode) → read_sidebar_mode jt (persist_sidebar_mode mode s) ≡ mode
    unfolding read_sidebar_mode persist_sidebar_mode
    read-persist_mode expanded =
        ground (arith, read_text-put jt s sidebar_mode_key "expanded" (λ e. absurd (cc)))
    read-persist_mode icons =
        ground (arith, read_text-put jt s sidebar_mode_key "icons" (λ e. absurd (cc)))

    read-persist_width :
        (px : ℤ)
        → read_sidebar_width jt (persist_sidebar_width (clamp_sidebar_width px) s)
          ≡ clamp_sidebar_width px
    unfolding read_sidebar_width persist_sidebar_width
    read-persist_width px =
        rw
          (
            read_sidebar_width,
            read_text-put jt s sidebar_width_key (decimal (clamp_sidebar_width px))
                (decimal-nonempty (clamp_sidebar_width px)),
            parse_int-decimal (clamp_sidebar_width px),
          )
          (clamp-clamp px)

    read-put_default :
        (name : String)
        → name ≢ ""
        → read_default_context jt (Dict.put s default_context_key (text name)) ≡ some name
    unfolding read_default_context
    read-put_default name h = read_text-put jt s default_context_key name h

    read-put_read_only :
        read_global_read_only jt (Dict.put s global_read_only_key (text "true")) ≡ true
    unfolding read_global_read_only
    read-put_read_only =
        ground (arith, read_text-put jt s global_read_only_key "true" (λ e. absurd (cc)))

    read-remove_read_only : read_global_read_only jt (Dict.remove s global_read_only_key) ≡ false
    unfolding read_global_read_only
    read-remove_read_only = ground (arith, read_text-remove jt s global_read_only_key)

    read-persist_theme :
        (id : String)
        → is_theme_id id ≡ true
        → read_saved_theme_id jt (persist_theme_id id s) ≡ some id
    unfolding read_saved_theme_id persist_theme_id
    read-persist_theme id known =
        rw
          (
            read_saved_theme_id,
            read_text-put jt s theme_storage_key id (is_theme_id-nonempty id known),
            known,
          )
          refl

  -- The writers of the settings.
  pub stored-persist_theme_id :
      (id : String) (s : Storage)
      → is_theme_id id ≡ true
      → stored jt (persist_theme_id id s) ≡ record (stored jt s) { theme_id = some id }
  unfolding persist_theme_id
  stored-persist_theme_id id s known =
      stored-put jt s theme_storage_key _
      ∙ ap (λ (o : Option String). record (stored jt s) { theme_id = o })
          (read-persist_theme s id known)

  pub stored-persist_collapsed_nav_groups :
      (list : List String) (s : Storage)
      → stored jt (persist_collapsed_nav_groups list s)
        ≡ record (stored jt s) { collapsed_nav_groups = list }
  unfolding persist_collapsed_nav_groups
  stored-persist_collapsed_nav_groups list s =
      stored-put jt s collapsed_nav_groups_key _
      ∙ ap (λ (xs : List String). record (stored jt s) { collapsed_nav_groups = xs })
          (read-persist_string_arrays jt list s).1

  pub stored-persist_expanded_crd_groups :
      (list : List String) (s : Storage)
      → stored jt (persist_expanded_crd_groups list s)
        ≡ record (stored jt s) { expanded_crd_groups = list }
  unfolding persist_expanded_crd_groups
  stored-persist_expanded_crd_groups list s =
      stored-put jt s expanded_crd_groups_key _
      ∙ ap (λ (xs : List String). record (stored jt s) { expanded_crd_groups = xs })
          (read-persist_string_arrays jt list s).2

  pub stored-persist_sidebar_mode :
      (mode : SidebarMode) (s : Storage)
      → stored jt (persist_sidebar_mode mode s) ≡ record (stored jt s) { sidebar_mode = mode }
  unfolding persist_sidebar_mode
  stored-persist_sidebar_mode mode s =
      stored-put jt s sidebar_mode_key _
      ∙ ap (λ (m : SidebarMode). record (stored jt s) { sidebar_mode = m })
          (read-persist_mode s mode)

  pub stored-persist_sidebar_width :
      (px : ℤ) (s : Storage)
      → stored jt (persist_sidebar_width (clamp_sidebar_width px) s)
        ≡ record (stored jt s) { sidebar_width = clamp_sidebar_width px }
  unfolding persist_sidebar_width
  stored-persist_sidebar_width px s =
      stored-put jt s sidebar_width_key _
      ∙ ap (λ n. record (stored jt s) { sidebar_width = n }) (read-persist_width s px)

  stored-remove_default :
      (s : Storage)
      → stored jt (Dict.remove s default_context_key)
        ≡ record (stored jt s) { default_context = none }
  unfolding read_default_context
  stored-remove_default s =
      stored-remove jt s default_context_key
      ∙ ap (λ (o : Option String). record (stored jt s) { default_context = o })
          (read_text-remove jt s default_context_key)

  pub stored-persist_default_context :
      (name : Option String) (s : Storage)
      → stored jt (persist_default_context (nonempty_name name) s)
        ≡ record (stored jt s) { default_context = nonempty_name name }
  unfolding persist_default_context
  stored-persist_default_context none s = stored-remove_default s
  stored-persist_default_context (some name) s = elim (Bool-cases (name == "")) [
    | inl e ↦ rw e (stored-remove_default s)
    | inr e ↦
        rw (e, e)
          (stored-put jt s default_context_key (text name)
            ∙ ap (λ (o : Option String). record (stored jt s) { default_context = o })
                (read-put_default s name (λ p. ground (arith, eq_iff name ""))))
  ]

  pub stored-persist_global_read_only :
      (value : Bool) (s : Storage)
      → stored jt (persist_global_read_only value s)
        ≡ record (stored jt s) { global_read_only = value }
  unfolding persist_global_read_only
  stored-persist_global_read_only true s =
      stored-put jt s global_read_only_key _
      ∙ ap (λ (b : Bool). record (stored jt s) { global_read_only = b }) (read-put_read_only s)
  stored-persist_global_read_only false s =
      stored-remove jt s global_read_only_key
      ∙ ap (λ (b : Bool). record (stored jt s) { global_read_only = b }) (read-remove_read_only s)

  -- The writers of what is no setting.
  stored-store_session :
      (contexts : List String) (session : LastSession) (s : Storage)
      → stored jt (store_session contexts session s) ≡ stored jt s
  stored-store_session [] session s = stored-remove jt s _
  stored-store_session (c ∷ cs) session s = stored-put jt s _ _

  pub stored-persist_last_session :
      (session : Option LastSession) (s : Storage)
      → stored jt (persist_last_session session s) ≡ stored jt s
  unfolding persist_last_session
  stored-persist_last_session none s = stored-remove jt s _
  stored-persist_last_session (some session) s = stored-store_session session.contexts session s
