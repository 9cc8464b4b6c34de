-- ===== src/Config/Mounts.antt =====
-- The volume mount that backs a path, and the path below it.
use volens.Base.{
  ℕ, String, Bool, true, false, not, ◌&&◌, ◌||◌, Option, none, some, List, [], ◌∷◌, ◌++◌, all, leb,
  ◌==◌, ◌≡◌, refl, arith, if◌then◌else◌, Any, Bool-cases, inl, inr, sym, ap, ◌∙◌, ◌⊎◌, ◌≢◌, ==_iff,
  Option-cases, &&-true,
}
use volens.Base.Paths.{CleanPath, clean, path_text, rel}
use volens.Base.Paths.Below.{is_inside, is_inside-rel}
use volens.Model.{ok}
use volens.Config.{
  VolumeMount, mount_matches, mount_length, is_longer, mount_loop, longest_matching_volume_mount,
  projected_configuration_path,
}

-- A mount that does not match, or is no longer than `n`.
abbrev pub is_beaten : String → ℕ → VolumeMount → Bool
is_beaten path n mount = not (mount_matches path mount) || leb (mount_length mount) n

abbrev selected_matches : String → Option VolumeMount → Bool
selected_matches path none = true
selected_matches path (some mount) = mount_matches path mount

abbrev is_within : Option VolumeMount → VolumeMount → Bool
is_within none m = true
is_within (some selected) m = leb (mount_length selected) (mount_length m)

abbrev IsSelected : String → List VolumeMount → Option VolumeMount → VolumeMount → Type 0
IsSelected path mounts selected m =
    (mount_matches path m ≡ true)
    × ((selected ≡ some m) ⊎ Any (λ mount. mount ≡ m) mounts)
    × (all (is_beaten path (mount_length m)) mounts ≡ true)
    × (is_within selected m ≡ true)

taken :
    (path : String) (mount : VolumeMount) (mounts : List VolumeMount)
    (selected : Option VolumeMount) (m : VolumeMount)
    → mount_matches path mount && is_longer mount selected ≡ true
    → IsSelected path mounts (some mount) m
    → IsSelected path (mount ∷ mounts) selected m
taken path mount mounts selected m t (a, b, c, d) = (
  a,
  elim b [ inl e ↦ inr (inl (cc e)) | inr there ↦ inr (inr there) ],
  ground arith,
  ground arith,
)

passed_over :
    (path : String) (mount : VolumeMount) (mounts : List VolumeMount)
    (selected : Option VolumeMount) (m : VolumeMount)
    → mount_matches path mount && is_longer mount selected ≡ false
    → IsSelected path mounts selected m
    → IsSelected path (mount ∷ mounts) selected m
passed_over path mount mounts selected m t (a, b, c, d) =
    (a, elim b [ inl e ↦ inl e | inr there ↦ inr (inr there) ], ground arith, d)

mount_loop-IsSelected :
    (path : String) (selected : Option VolumeMount) (mounts : List VolumeMount) (m : VolumeMount)
    → selected_matches path selected ≡ true
    → mount_loop path selected mounts ≡ some m
    → IsSelected path mounts selected m
unfolding mount_loop
mount_loop-IsSelected path selected [] m fit e = (ground arith, inl e, refl, ground arith)
mount_loop-IsSelected path selected (mount ∷ mounts) m fit e =
    let next : Bool → Option VolumeMount =
      λ x. mount_loop path (if x then some mount else selected) mounts in
    let chosen = mount_matches path mount && is_longer mount selected in
    elim (Bool-cases chosen) [
      | inl t ↦ taken path mount mounts selected m t (
          mount_loop-IsSelected path (some mount) mounts m ((&&-true _ _).0 t).0
            (sym (ap next t) ∙ e))
      | inr f ↦
          passed_over path mount mounts selected m f
            (mount_loop-IsSelected path selected mounts m fit (sym (ap next f) ∙ e))
    ]

-- How a mount leads to a path: the path is the mount's with the projected path below it, or it is the
-- mount's own path, and the projected path is the one inside the volume.
abbrev pub LeadsTo : String → VolumeMount → CleanPath → Type 0
LeadsTo path m projected =
    ((m.sub_path ≡ "")
      × ((clean path).rooted ≡ (clean m.mount_path).rooted)
      × ((clean path).parts ≡ (clean m.mount_path).parts ++ projected.parts))
    ⊎ ((m.sub_path ≢ "")
        × (path_text (clean path) ≡ path_text (clean m.mount_path))
        × (projected ≡ clean m.sub_path))

whole_mount :
    (path : String) (m : VolumeMount)
    → mount_matches path m ≡ true
    → m.sub_path ≡ ""
    → (parts : List String) × (rel (clean m.mount_path) (clean path) ≡ some parts)
      × (is_inside (some parts) ≡ true)
      × (projected_configuration_path m path ≡ ok (record { rooted = false; parts = parts }))
unfolding mount_matches projected_configuration_path
whole_mount path m h e = elim (Option-cases (rel (clean m.mount_path) (clean path))) [
  | inl outside ↦ absurd (ground arith)
  | inr (parts, r) ↦ (parts, r, ground arith, ground arith)
]

mount_matches-LeadsTo :
    (path : String) (m : VolumeMount)
    → mount_matches path m ≡ true
    → (projected : CleanPath) × (projected_configuration_path m path ≡ ok projected)
      × LeadsTo path m projected
unfolding mount_matches projected_configuration_path
mount_matches-LeadsTo path m h = elim (Bool-cases (m.sub_path == "")) [
  | inl whole ↦
      let e = (==_iff _ _).0 whole in
      let (parts, r, inside, p) = whole_mount path m h e in
      (
        record { rooted = false; parts = parts },
        p,
        let (roots, below) = is_inside-rel (clean m.mount_path) (clean path) parts r inside in
            inl (e, roots, below),
      )
  | inr part ↦ (clean m.sub_path, ground arith, inr (ground arith, ground arith, refl))
]

-- The volume mount that is selected for a path is one of the container's mounts, matches the path,
-- and no other that matches has a longer path; the path below it can always be told, and leads from
-- the mount to the path that was asked for.
pub longest_matching_volume_mount-LeadsTo :
    (mounts : List VolumeMount) (path : String) (m : VolumeMount)
    → longest_matching_volume_mount mounts path ≡ some m
    → Any (λ mount. mount ≡ m) mounts
      × (mount_matches path m ≡ true)
      × (all (is_beaten path (mount_length m)) mounts ≡ true)
      × (projected : CleanPath) × (projected_configuration_path m path ≡ ok projected)
      × LeadsTo path m projected
unfolding longest_matching_volume_mount
longest_matching_volume_mount-LeadsTo mounts path m e =
    let (a, b, c, d) = mount_loop-IsSelected path none mounts m refl e in
    let (projected, p, l) = mount_matches-LeadsTo path m a in
    (elim b [ inl none_yet ↦ absurd (cc none_yet) | inr there ↦ there ], a, c, projected, p, l)
