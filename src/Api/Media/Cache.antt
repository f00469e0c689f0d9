-- ===== src/Api/Media/Cache.antt =====
-- What the cache of video previews holds, and when a device is read for it.
use mathlib.Core.Path.{subst}
use companion_mission_planne.Base.{
  ◌≡◌, ◌≢◌, refl, sym, ◌∙◌, ◌⊎◌, inl, inr, arith, some, some-injective, Text, text_Eq, text_eq_iff,
  ==_refl, Result, ok, err, Bool-cases, Option-cases,
}
use companion_mission_planne.Base.Table
use companion_mission_planne.Base.Table.{Table, get-put, get-remove}
use companion_mission_planne.Device.Service.{DeviceError, Methods}
use companion_mission_planne.Device.Service.MediaRoutes.{read_video_preview}
use companion_mission_planne.Api.Media.{
  Files, Media, Os, preview_file, is_cached, settle, settle_copied, pulled_part, pull_preview,
  cached_video_preview,
}

-- The file at `dst` is as it was, or it is whole: what the device gave for the preview, and `r`
-- names it.
abbrev pub IsWhole :
    Text → Files → Result DeviceError (Text × Text) → Files → Result DeviceError Text → Type 0
IsWhole dst before pulled after r =
    (Table.get dst after ≡ Table.get dst before)
    ⊎ ((name : Text) × (content : Text) × (pulled ≡ ok (name, content))
        × (Table.get dst after ≡ some content)
        × (r ≡ ok dst))

remove-other :
    (tmp dst : Text) (files : Files)
    → tmp ≢ dst
    → Table.get dst (Table.remove tmp files) ≡ Table.get dst files
remove-other tmp dst files n = get-remove tmp dst files ∙ ground (arith, n, text_eq_iff tmp dst)

copied-IsWhole :
    (os : Os) (tmp dst : Text) (pulled : Result DeviceError (Text × Text)) (files : Files)
    → tmp ≢ dst
    → IsWhole dst files pulled
        (settle_copied os tmp dst pulled files).0
        (settle_copied os tmp dst pulled files).1
unfolding settle_copied
copied-IsWhole os tmp dst (err e) files n = inl (remove-other tmp dst files n)
copied-IsWhole os tmp dst (ok (name, content)) files n = elim (Bool-cases os.close_fails) [
  | inl c ↦ rw (c, settle_copied) (inl (remove-other tmp dst files n))
  | inr c ↦ elim (Bool-cases os.rename_fails) [
    | inl q ↦ rw (c, q, settle_copied) (inl (remove-other tmp dst files n))
    | inr q ↦
        rw (c, q, settle_copied)
          (inr (
            name,
            content,
            refl,
            get-put dst dst content (Table.remove tmp files) ∙ rw (==_refl dst) refl,
            refl,
          ))
  ]
]

settle-IsWhole :
    (os : Os) (tmp dst : Text) (pulled : Result DeviceError (Text × Text)) (files : Files)
    → tmp ≢ dst
    → IsWhole dst files pulled (settle os tmp dst pulled files).0 (settle os tmp dst pulled files).1
unfolding settle
settle-IsWhole os tmp dst pulled files n = elim (Option-cases os.ends_after) [
  | inl e ↦ rw (e, settle) (copied-IsWhole os tmp dst pulled files n)
  | inr (k, e) ↦
      rw (e, settle)
        (inl
          (get-put tmp dst (pulled_part k pulled) files ∙ ground (arith, n, text_eq_iff tmp dst)))
]

module _ {W : Type 0} (m : Methods W) where
  whole :
      (os : Os) (device file_id : Text) (s : Media W) (dst : Text)
      → preview_file s.temp device file_id ≡ dst
      → ((tmp : Text) → os.create_temp ≡ some tmp → tmp ≢ dst)
      → IsWhole dst s.files
          (read_video_preview m device file_id s.service).1
          (cached_video_preview m os device file_id s).0.files
          (cached_video_preview m os device file_id s).1
  unfolding cached_video_preview pull_preview
  whole os device file_id s dst at other =
      elim (Bool-cases (is_cached (preview_file s.temp device file_id) s.files)) [
        | inl c ↦ rw (c, cached_video_preview) (inl refl)
        | inr c ↦ elim (Bool-cases os.mkdir_fails) [
          | inl k ↦ rw (c, k, cached_video_preview) (inl refl)
          | inr k ↦ elim (Option-cases os.create_temp) [
            | inl t ↦ rw (c, k, t, cached_video_preview) (inl refl)
            | inr (tmp, t) ↦
                let settled =
                  settle-IsWhole os tmp dst (read_video_preview m device file_id s.service).1
                    s.files (other tmp t) in
                rw (c, k, t, cached_video_preview, pull_preview, at) settled
          ]
        ]
      ]

  -- Whatever fails, and wherever the process ends during a pull, the file of a preview is what it was
  -- before, or it is the whole of what the device gave, and the call returns its path. The temporary
  -- file has a name of its own.
  pub cached_video_preview-IsWhole :
      (os : Os) (device file_id tmp : Text) (s : Media W)
      → os.create_temp ≡ some tmp
      → tmp ≢ preview_file s.temp device file_id
      → IsWhole
          (preview_file s.temp device file_id)
          s.files
          (read_video_preview m device file_id s.service).1
          (cached_video_preview m os device file_id s).0.files
          (cached_video_preview m os device file_id s).1
  cached_video_preview-IsWhole os device file_id tmp s e other =
      let dst = preview_file s.temp device file_id in
      whole os device file_id s dst refl
        (λ t q. subst (λ x. x ≢ dst) (some-injective _ _ (sym e ∙ q)) other)
