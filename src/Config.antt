-- ===== src/Config.antt =====
-- internal/cluster/scheduler_config.go: the key of the ConfigMap that is mounted at the path of the
-- scheduler's configuration.
use volens.Base.{
  ℕ, String, Bool, true, false, not, ◌&&◌, Option, none, some, List, [], ◌∷◌, ◌==◌, ltb, length,
  is_empty, if◌then◌else◌,
}
use volens.Base.Chars.{chars}
use volens.Base.Paths.{CleanPath, clean, path_text, rel}
use volens.Base.Paths.Below.{is_inside}
use volens.Model.{text, quoted, Failure, failure, Result, ok, err}
mod Tests
pub mod Command
pub mod Parse
pub mod Mounts
pub mod Read

-- The fields of a Kubernetes object that this file reads.
pub record VolumeMount : Type 0 where
  pub name : String
  pub mount_path : String
  pub sub_path : String

pub record KeyToPath : Type 0 where
  pub key : String
  pub path : String

pub record ConfigMapVolumeSource : Type 0 where
  pub name : String
  pub items : List KeyToPath

pub record Volume : Type 0 where
  pub name : String
  pub config_map : Option ConfigMapVolumeSource

pub record SchedulerContainer : Type 0 where
  pub name : String
  pub command : List String
  pub args : List String
  pub volume_mounts : List VolumeMount

pub record SchedulerPod : Type 0 where
  pub uid : String
  pub namespace : String
  pub containers : List SchedulerContainer
  pub volumes : List Volume

pub record SchedulerConfigMapReference : Type 0 where
  pub namespace : String
  pub name : String
  pub key : String

container_loop : String → List SchedulerContainer → Option SchedulerContainer
container_loop name [] = none
container_loop name (c ∷ cs) = if c.name == name then some c else container_loop name cs

unfoldable pub container_by_name : SchedulerPod → String → Option SchedulerContainer
unfolding container_loop
container_by_name pod name = container_loop name pod.containers

unfoldable pub mount_matches : String → VolumeMount → Bool
mount_matches path mount =
    if not (mount.sub_path == "")
    then path_text (clean path) == path_text (clean mount.mount_path)
    else is_inside (rel (clean mount.mount_path) (clean path))

-- `len` of the cleaned mount path.
abbrev pub mount_length : VolumeMount → ℕ
mount_length mount = length (chars (path_text (clean mount.mount_path)))

abbrev pub is_longer : VolumeMount → Option VolumeMount → Bool
is_longer mount none = true
is_longer mount (some selected) = ltb (mount_length selected) (mount_length mount)

unfoldable pub mount_loop : String → Option VolumeMount → List VolumeMount → Option VolumeMount
mount_loop path selected [] = selected
mount_loop path selected (mount ∷ mounts) =
    mount_loop path
      (if mount_matches path mount && is_longer mount selected then some mount else selected) mounts

unfoldable pub longest_matching_volume_mount : List VolumeMount → String → Option VolumeMount
unfolding mount_loop
longest_matching_volume_mount mounts path = mount_loop path none mounts

unfoldable pub pod_volume_by_name : String → List Volume → Option Volume
pod_volume_by_name name [] = none
pod_volume_by_name name (v ∷ vs) = if v.name == name then some v else pod_volume_by_name name vs

-- The cleaned path below the volume.
unfoldable pub projected_configuration_path : VolumeMount → String → Result CleanPath
projected_configuration_path mount path =
    if not (mount.sub_path == "")
    then ok (clean mount.sub_path)
    else let relative = rel (clean mount.mount_path) (clean path) in
      if is_inside relative
      then ok (record { rooted = false; parts = elim relative [ none ↦ [] | some parts ↦ parts ] })
      else err (
          failure (
            text "scheduler configuration path "
            ∷ quoted path
            ∷ text " is outside volume mount "
            ∷ quoted mount.mount_path
            ∷ []))

-- The first item at the path decides.
abbrev item_loop : String → List KeyToPath → Option String
item_loop path [] = none
item_loop path (item ∷ items) =
    let rest = item_loop path items in
    if path_text (clean item.path) == path
    then (if item.key == "" then none else some item.key)
    else rest

unfoldable pub config_map_key_for_projected_path : ConfigMapVolumeSource → CleanPath → Result String
config_map_key_for_projected_path source path =
    if is_empty source.items
    then ok (path_text path)
    else elim (item_loop (path_text path) source.items) [
      | some key ↦ ok key
      | none ↦ err (
          failure (
            text "scheduler configuration projected path "
            ∷ quoted (path_text path)
            ∷ text " is not mapped by the ConfigMap volume items"
            ∷ []))
    ]

abbrev pub no_mount : String → Failure
no_mount path = failure (
    text "scheduler configuration path "
    ∷ quoted path
    ∷ text " is not backed by a container volume mount"
    ∷ [])

abbrev pub no_volume : VolumeMount → Failure
no_volume mount =
    failure
      (text "scheduler volume mount " ∷ quoted mount.name ∷ text " has no matching Pod volume" ∷ [])

abbrev pub no_config_map : Volume → Failure
no_config_map volume = failure (
    text "scheduler configuration volume "
    ∷ quoted volume.name
    ∷ text " is not backed by a named ConfigMap"
    ∷ [])

-- The key of a volume that is mounted, once its ConfigMap is known.
unfoldable pub reference_in :
    SchedulerPod → VolumeMount → ConfigMapVolumeSource → String → Result SchedulerConfigMapReference
reference_in pod mount source path = elim (projected_configuration_path mount path) [
  | err e ↦ err e
  | ok projected ↦ elim (config_map_key_for_projected_path source projected) [
    | err e ↦ err e
    | ok key ↦ ok (record { namespace = pod.namespace; name = source.name; key = key })
  ]
]

unfoldable pub reference_from :
    SchedulerPod → VolumeMount → Volume → String → Result SchedulerConfigMapReference
unfolding reference_in
reference_from pod mount volume path = elim volume.config_map [
  | none ↦ err (no_config_map volume)
  | some source ↦
      if source.name == "" then err (no_config_map volume) else reference_in pod mount source path
]

-- The Pod and the container are there.
unfoldable pub scheduler_config_map_for_path :
    SchedulerPod → SchedulerContainer → String → Result SchedulerConfigMapReference
unfolding longest_matching_volume_mount pod_volume_by_name reference_from
scheduler_config_map_for_path pod container path =
    elim (longest_matching_volume_mount container.volume_mounts path) [
      | none ↦ err (no_mount path)
      | some mount ↦ elim (pod_volume_by_name mount.name pod.volumes) [
        | none ↦ err (no_volume mount)
        | some volume ↦ reference_from pod mount volume path
      ]
    ]
