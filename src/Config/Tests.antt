-- ===== src/Config/Tests.antt =====
-- A scheduler's container with two mounts, and a configuration.
use volens.Base.{List, none, ◌≡◌, refl, true, false, some, [], ◌∷◌, String, all, Any, str_dec}
use volens.Base.Text.{has_prefix, contains}
use volens.Base.Dict.{insert, lookup}
use volens.Base.Chars.{split, fields}
use volens.Base.Paths.{CleanPath, clean, path_text, rel}
use volens.Model.{Result, ok, err, is_ok}
use volens.Analysis.Policy.{boolean}
use volens.Config.{
  container_by_name, VolumeMount, SchedulerContainer, SchedulerPod, mount_matches, mount_length,
  longest_matching_volume_mount, config_map_key_for_projected_path, projected_configuration_path,
  scheduler_config_map_for_path,
}
use volens.Config.Command.{scheduler_configuration_path}
use volens.Config.Parse.{
  parse_scheduler_actions, parse_named_scheduler_options, string_value, mapping, value,
  SchedulerConfigurationDocument, parse_scheduler_configuration,
}
use volens.Config.Parse.Verdict.{is_accepted, is_ok-parse_scheduler_configuration}
use volens.Cluster.{Scheduler}
use volens.Config.Read.{ConfigMap, Reading, get_volcano_scheduler_configuration_for}
use volens.Config.Mounts.{is_beaten, LeadsTo, longest_matching_volume_mount-LeadsTo}

abbrev root_mount : VolumeMount
root_mount = record { name = "root"; mount_path = "/"; sub_path = "" }

abbrev config_mount : VolumeMount
config_mount = record { name = "config"; mount_path = "/volcano.scheduler/"; sub_path = "" }

abbrev scheduler : SchedulerContainer
scheduler = record {
  name = "scheduler";
  command = "/bin/sh" ∷ "-c" ∷ [];
  args = "vc-scheduler --v=3 '--scheduler-conf=/volcano.scheduler/a/../conf'" ∷ [];
  volume_mounts = root_mount ∷ config_mount ∷ [];
}

abbrev pod : SchedulerPod
pod = record {
  uid = "pod-1";
  namespace = "volcano-system";
  containers = scheduler ∷ [];
  volumes =
      record {
        name = "config";
        config_map = some (record {
          name = "scheduler-configmap";
          items = record { key = "volcano.conf"; path = "conf" } ∷ [];
        });
      }
      ∷ [];
}

reads_path : scheduler_configuration_path scheduler ≡ ok (some "/volcano.scheduler/conf")
unfolding scheduler_configuration_path fields str_dec has_prefix contains insert path_text clean
    split
reads_path = refl

finds_key :
    scheduler_config_map_for_path pod scheduler "/volcano.scheduler/conf"
    ≡ ok (record {
      namespace = "volcano-system";
      name = "scheduler-configmap";
      key = "volcano.conf";
    })
unfolding scheduler_config_map_for_path mount_matches str_dec rel clean has_prefix split path_text
    projected_configuration_path config_map_key_for_projected_path
finds_key = refl

longest_matching_volume_mount-LeadsTo_example :
    Any (λ mount. mount ≡ config_mount) scheduler.volume_mounts
    × (mount_matches "/volcano.scheduler/conf" config_mount ≡ true)
    × (all (is_beaten "/volcano.scheduler/conf" (mount_length config_mount)) scheduler.volume_mounts
        ≡ true)
    × (projected : CleanPath) × (projected_configuration_path config_mount "/volcano.scheduler/conf"
        ≡ ok projected)
    × LeadsTo "/volcano.scheduler/conf" config_mount projected
unfolding longest_matching_volume_mount mount_matches str_dec rel clean has_prefix split path_text
longest_matching_volume_mount-LeadsTo_example =
    longest_matching_volume_mount-LeadsTo scheduler.volume_mounts "/volcano.scheduler/conf"
      config_mount refl

abbrev document : SchedulerConfigurationDocument
document = record {
  actions = "enqueue, allocate, backfill";
  tiers =
      record {
        plugins =
            (("name", string_value "gang")
              ∷ ("enableJobReady", value (boolean false))
              ∷ ("arguments", mapping [])
              ∷ [])
            ∷ [];
      }
      ∷ [];
  configurations = [];
}

abbrev decode : String → Result SchedulerConfigurationDocument
decode content = ok document

is_ok-parse_scheduler_configuration_example :
    is_ok (parse_scheduler_configuration decode "actions:") ≡ is_accepted (ok document)
is_ok-parse_scheduler_configuration_example = is_ok-parse_scheduler_configuration decode "actions:"

abbrev known_pods : String → String → Result SchedulerPod
known_pods namespace name = ok pod

abbrev known_maps : String → String → Result ConfigMap
known_maps namespace name = ok (record {
  uid = "m";
  resource_version = "1";
  texts = ("volcano.conf", "actions:") ∷ [];
  binary_data = [];
})

abbrev leader : Scheduler
leader = record {
  namespace = "volcano-system";
  name = "volcano-scheduler-0";
  uid = "pod-1";
  scheduler_names = [];
  default_queue = "";
  configuration_determinate = false;
  configuration_reason = "";
}

abbrev actions_of : Result Reading → List String
actions_of (err e) = []
actions_of (ok r) = r.config.actions

reads_actions :
    actions_of
      (get_volcano_scheduler_configuration_for decode known_pods known_maps none leader "scheduler")
    ≡ "enqueue" ∷ "allocate" ∷ "backfill" ∷ []
unfolding get_volcano_scheduler_configuration_for str_dec container_by_name
    scheduler_configuration_path fields has_prefix contains insert scheduler_config_map_for_path
    mount_matches rel clean path_text split projected_configuration_path
    config_map_key_for_projected_path lookup parse_scheduler_configuration parse_scheduler_actions
    parse_named_scheduler_options
reads_actions = refl
