-- ===== src/Enqueue/Events.antt =====
-- internal/agent/enqueue/enqueue.go: the events of the Pod and of its PodGroup, and the newest that
-- tells of the admission. A time is the count of nanoseconds since the zero `time.Time`.
use Prim.Native.String.{◌++◌ as ◌<>◌}
use volens.Base.{
  ℕ, String, Bool, true, false, not, ◌&&◌, ◌||◌, Option, none, some, List, [], ◌∷◌, ◌++◌, is_empty,
  leb, eqb, if◌then◌else◌,
}
use volens.Base.Text.{codes, lower, trim, same, contains, equal_fold}
use volens.Kube.{Event}
use volens.Model.{Message, Piece, text, points, Failure}

pub data EnqueueOutcome : Type 0 where
  unknown_outcome rejected succeeded : EnqueueOutcome

-- `strings.ToLower(strings.TrimSpace(s))`
abbrev pub normal : String → List ℕ
normal s = lower (trim (codes s))

unfoldable pub classify_enqueue_event : Event → EnqueueOutcome
classify_enqueue_event event =
    let reason = normal event.reason in
    let message = normal event.message in
    if same reason (codes "enqueued")
      || contains message (codes "job enqueued")
      || contains message (codes "podgroup enqueued")
    then succeeded
    else if equal_fold (codes event.involved_kind) (codes "PodGroup")
        && contains message (codes "queue resource quota insufficient")
    then rejected
    else if contains reason (codes "enqueue")
        && (contains reason (codes "fail") || contains reason (codes "reject"))
    then rejected
    else unknown_outcome

component_matches : List ℕ → List ℕ → Bool
component_matches expected component =
    if is_empty component
    then false
    else same component expected
      || contains component (codes "volcano")
      || contains component (codes "vc-scheduler")

unfoldable pub scheduler_event : Event → String → Bool
unfolding component_matches
scheduler_event event scheduler_name =
    let expected = normal scheduler_name in
    component_matches expected (normal event.source_component)
    || component_matches expected (normal event.reporting_controller)

abbrev pub is_zero_time : ℕ → Bool
is_zero_time t = eqb t 0

-- `event.Series != nil && !event.Series.LastObservedTime.IsZero()`, and its time
abbrev pub series_time : Option ℕ → ℕ
series_time none = 0
series_time (some t) = t

unfoldable pub event_observed_time : Event → ℕ
event_observed_time event =
    if not (is_zero_time event.event_time)
    then event.event_time
    else if not (is_zero_time (series_time event.series_last_observed))
    then series_time event.series_last_observed
    else if not (is_zero_time event.last_timestamp)
    then event.last_timestamp
    else if not (is_zero_time event.first_timestamp)
    then event.first_timestamp
    else event.creation_timestamp

-- The variables of the loop over the events.
pub record Selection : Type 0 where
  pub selected : Event
  pub outcome : EnqueueOutcome
  pub time : ℕ

abbrev pub is_unknown_outcome : EnqueueOutcome → Bool
is_unknown_outcome unknown_outcome = true
is_unknown_outcome rejected = false
is_unknown_outcome succeeded = false

-- An event that the loop does not pass over by `continue`.
abbrev pub is_relevant : String → Event → Bool
is_relevant scheduler_name event =
    scheduler_event event scheduler_name && not (is_unknown_outcome (classify_enqueue_event event))

unfoldable pub select_step : String → Selection → Event → Selection
select_step scheduler_name s event =
    if is_relevant scheduler_name event
    then (let observed = event_observed_time event in
        if is_unknown_outcome s.outcome || leb s.time observed
        then record { selected = event; outcome = classify_enqueue_event event; time = observed }
        else s)
    else s

unfoldable pub select_loop : String → Selection → List Event → Selection
unfolding select_step
select_loop scheduler_name s [] = s
select_loop scheduler_name s (event ∷ events) =
    select_loop scheduler_name (select_step scheduler_name s event) events

-- The zero value of Event.
abbrev pub no_event : Event
no_event = record {
  reason = "";
  message = "";
  involved_kind = "";
  source_component = "";
  reporting_controller = "";
  event_time = 0;
  series_last_observed = none;
  last_timestamp = 0;
  first_timestamp = 0;
  creation_timestamp = 0;
}

abbrev pub no_selection : Selection
no_selection = record { selected = no_event; outcome = unknown_outcome; time = 0 }

unfoldable pub newest_enqueue_evidence : List Event → String → Event × EnqueueOutcome
unfolding select_loop
newest_enqueue_evidence events scheduler_name =
    let s = select_loop scheduler_name no_selection events in (s.selected, s.outcome)

unfoldable pub event_reason : Event → Piece
event_reason event = points (trim (codes (event.reason <> (" " <> event.message))))

abbrev part : String → Option Failure → List Message
part prefix none = []
part prefix (some e) = (text prefix ∷ e.message) ∷ []

abbrev join_parts : List Message → Message
join_parts [] = []
join_parts (p ∷ []) = p
join_parts (p ∷ ps) = p ++ text "; " ∷ join_parts ps

unfoldable pub event_errors : Option Failure → Option Failure → Message
event_errors pod_err group_err =
    text "event evidence is incomplete ("
      ∷ join_parts (part "Pod events: " pod_err ++ part "PodGroup events: " group_err)
    ++ text ")" ∷ []
