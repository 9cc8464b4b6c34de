-- ===== src/Config/Read.antt =====
-- internal/cluster/scheduler_config.go: GetVolcanoSchedulerConfigurationFor. The informers' listers and
-- the YAML decoder are parameters.
use volens.Base.{
  String, true, false, not, ◌&&◌, ◌||◌, Option, none, some, [], ◌∷◌, ◌==◌, if◌then◌else◌,
}
use volens.Base.Dict.{Dict, lookup}
use volens.Cluster.{Scheduler}
use volens.Model.{Message, text, quoted, Failure, failure, plain, Result, ok, err}
use volens.Analysis.Policy.{SchedulerRuntimeConfig}
use volens.Config.{
  SchedulerContainer, SchedulerPod, SchedulerConfigMapReference, container_by_name,
  scheduler_config_map_for_path,
}
use volens.Config.Command.{scheduler_configuration_path}
use volens.Config.Parse.{SchedulerConfigurationDocument, parse_scheduler_configuration}

-- `texts` is the field Data.
pub record ConfigMap : Type 0 where
  pub uid : String
  pub resource_version : String
  pub texts : Dict String
  pub binary_data : Dict String

-- The result, with its reason as pieces beside it: the reason in the record is left empty.
pub record Reading : Type 0 where
  pub config : SchedulerRuntimeConfig
  pub reason : Message

abbrev reading : SchedulerRuntimeConfig → Message → Result Reading
reading config reason = ok (record { config = config; reason = reason })

abbrev identified : Scheduler → SchedulerRuntimeConfig
identified scheduler = record {
  determinate = false;
  reason = "";
  scheduler_namespace = scheduler.namespace;
  scheduler_pod = scheduler.name;
  scheduler_uid = scheduler.uid;
  scheduler_conf_path = "";
  config_map_namespace = "";
  config_map_name = "";
  config_map_key = "";
  config_map_uid = "";
  config_map_resource_version = "";
  actions = [];
  tiers = [];
}

-- The data of a key, or else its binary data.
abbrev content_of : ConfigMap → String → Option String
content_of m key = elim (lookup key m.texts) [
  | some content ↦ some content
  | none ↦ lookup key m.binary_data
]

-- "<before> namespace/name<after>"
abbrev at_config_map : String → SchedulerConfigMapReference → Message → Message
at_config_map before r after = text before ∷ text r.namespace ∷ text "/" ∷ text r.name ∷ after

module _ (unmarshal : String → Result SchedulerConfigurationDocument)
    (pods : String → String → Result SchedulerPod)
    (config_maps : String → String → Result ConfigMap) where
  unfoldable pub read_content :
      SchedulerRuntimeConfig → SchedulerConfigMapReference → Option String → Result Reading
  read_content config r none =
      reading config
        (at_config_map "scheduler ConfigMap " r (text " does not contain key " ∷ quoted r.key ∷ []))
  read_content config r (some content) = elim (parse_scheduler_configuration unmarshal content) [
    | err e ↦ reading config (
        at_config_map "parse scheduler ConfigMap " r
          (text " key " ∷ quoted r.key ∷ text ": " ∷ e.message))
    | ok p ↦
        reading (record config { determinate = true; actions = p.actions; tiers = p.tiers })
          (plain
            "parsed the ConfigMap mounted by the current scheduler leader; ConfigMap projection and scheduler file reload are eventually consistent")
  ]

  unfoldable pub read_reference :
      SchedulerRuntimeConfig → SchedulerConfigMapReference → Result Reading
  unfolding read_content
  read_reference config r =
      let named = record config {
        config_map_namespace = r.namespace;
        config_map_name = r.name;
        config_map_key = r.key;
      } in
      elim (config_maps r.namespace r.name) [
        | err e ↦ reading named (
            at_config_map "read scheduler ConfigMap " r (text " from informer cache: " ∷ e.message))
        | ok m ↦
            read_content
              (record named {
                config_map_uid = m.uid;
                config_map_resource_version = m.resource_version;
              })
              r (content_of m r.key)
      ]

  unfoldable pub read_container :
      SchedulerRuntimeConfig → SchedulerPod → SchedulerContainer → Result Reading
  unfolding read_reference
  read_container config pod container = elim (scheduler_configuration_path container) [
    | err e ↦ reading config e.message
    | ok none ↦ reading config (
        plain
          "scheduler does not set --scheduler-conf; the active configuration comes from the branch-compiled DefaultSchedulerConf")
    | ok (some path) ↦
        let at_path = record config { scheduler_conf_path = path } in
        elim (scheduler_config_map_for_path pod container path) [
          | err e ↦ reading at_path e.message
          | ok r ↦ read_reference at_path r
        ]
  ]

  unfoldable pub read_pod : Scheduler → String → Result SchedulerPod → Result Reading
  unfolding read_container
  read_pod scheduler container (err e) =
      reading (identified scheduler) (text "read scheduler Pod from informer cache: " ∷ e.message)
  read_pod scheduler container (ok pod) =
      if not (scheduler.uid == "") && not (pod.uid == scheduler.uid)
      then reading (identified scheduler) (
          text "scheduler Pod UID changed while reading policy: discovered="
          ∷ text scheduler.uid
          ∷ text " cached="
          ∷ text pod.uid
          ∷ [])
      else elim (container_by_name pod container) [
        | none ↦
            reading (identified scheduler)
              (plain "scheduler container is unavailable in the informer cache")
        | some c ↦ read_container (identified scheduler) pod c
      ]

  -- `container` is the scheduler's container; the context is there, and `ctx_err` is its error.
  unfoldable pub get_volcano_scheduler_configuration_for :
      Option Failure → Scheduler → String → Result Reading
  unfolding read_pod
  get_volcano_scheduler_configuration_for (some e) scheduler container = err e
  get_volcano_scheduler_configuration_for none scheduler container =
      if (scheduler.namespace == "") || (scheduler.name == "") || (container == "")
      then err (failure (plain "scheduler identity is incomplete"))
      else read_pod scheduler container (pods scheduler.namespace scheduler.name)
