-- ===== src/Capture/Stream.antt =====
-- internal/cluster/cache.go: captureCacheDumpFromStream, which waits for the goroutine that scans the
-- log, sends the signal and waits for the dump. The goroutine and the context are an environment
-- that moves at any time.
use volens.Base.{ℕ, suc, ◌≡◌, Bool, true, false, Option, none, some, [], ◌∷◌, length}
use volens.Base.Int.{pos}
use volens.Base.Dict.{Dict}
use volens.Cluster.{CacheNode, CacheJob}
use volens.Model.{text, number, plain, Failure, failure, wrap}
use volens.Capture.Scan.{CacheCaptureResult}

-- The three results; `nodes` is `none` where the source returns the nil map.
pub record CaptureReturn : Type 0 where
  pub nodes : Option (Dict CacheNode)
  pub jobs : Dict CacheJob
  pub err : Option Failure

abbrev pub no_dump : Failure → CaptureReturn
no_dump e = record { nodes = none; jobs = []; err = some e }

abbrev pub with_dump : CacheCaptureResult → Option Failure → CaptureReturn
with_dump r e = record { nodes = some r.nodes; jobs = r.jobs; err = e }

-- A result that is there before the signal belongs to an older dump.
unfoldable pub early_return : CacheCaptureResult → CaptureReturn
early_return r = elim r.err [
  | some e ↦ with_dump r (some (wrap "scheduler log stream ended before cache signal: " e))
  | none ↦ with_dump r (some (failure (plain "scheduler cache dump completed before cache signal")))
]

unfoldable pub finished_return : CacheCaptureResult → CaptureReturn
finished_return r = elim r.err [
  | some e ↦ with_dump r (some e)
  | none ↦ elim r.last_parse_err [
    | some e ↦ with_dump r (
        some (record e {
          message =
              text "cache dump completed with "
              ∷ number (pos (length r.nodes))
              ∷ text " nodes and "
              ∷ number (pos (length r.jobs))
              ∷ text " jobs; last schema error: "
              ∷ e.message;
        }))
    | none ↦ with_dump r none
  ]
]

abbrev pub cancelled_with : Failure → Option CacheCaptureResult → CaptureReturn
cancelled_with e none = no_dump (wrap "cache dump capture: " e)
cancelled_with e (some r) = with_dump r (some (wrap "cache dump capture: " e))

-- Where captureCacheDumpFromStream stands; `draining` keeps the context's error.
pub data Phase : Type 0 where
  starting checking signalling waiting : Phase
  draining : Failure → Phase
  returned : CaptureReturn → Phase

-- `read_started` is the closed channel of that name, `result` what lies in resultChannel, `ctx_err` the
-- context's error, `signals` the calls of signal that succeeded, `closed` whether the stream is closed.
pub record World : Type 0 where
  pub phase : Phase
  pub read_started : Bool
  pub result : Option CacheCaptureResult
  pub ctx_err : Option Failure
  pub signals : ℕ
  pub closed : Bool

abbrev pub new_world : World
new_world = record {
  phase = starting;
  read_started = false;
  result = none;
  ctx_err = none;
  signals = 0;
  closed = false;
}

-- The scanner begins to read before it has a result, and gives one result.
pub data EnvStep : World → World → Type 0 where
  begins_reading : (w : World) → EnvStep w (record w { read_started = true })
  gives_result :
      (w : World) (r : CacheCaptureResult)
      → w.read_started ≡ true
      → w.result ≡ none
      → EnvStep w (record w { result = some r })
  expires : (w : World) (e : Failure) → w.ctx_err ≡ none → EnvStep w (record w { ctx_err = some e })

abbrev pub returns : CaptureReturn → World → World
returns ret w = record w { phase = returned ret; closed = true }

pub data MainStep : World → World → Type 0 where
  -- the first select
  sees_start :
      (w : World)
      → w.phase ≡ starting
      → w.read_started ≡ true
      → MainStep w (record w { phase = checking })
  start_cancelled :
      (w : World) (e : Failure)
      → w.phase ≡ starting
      → w.ctx_err ≡ some e
      → MainStep w (returns (no_dump (wrap "start cache dump parser: " e)) w)
  -- the second select, which does not wait
  ends_early :
      (w : World) (r : CacheCaptureResult)
      → w.phase ≡ checking
      → w.result ≡ some r
      → MainStep w (returns (early_return r) w)
  goes_on :
      (w : World)
      → w.phase ≡ checking
      → w.result ≡ none
      → MainStep w (record w { phase = signalling })
  signal_fails :
      (w : World) (e : Failure) → w.phase ≡ signalling → MainStep w (returns (no_dump e) w)
  signal_sent :
      (w : World)
      → w.phase ≡ signalling
      → MainStep w (record w { phase = waiting; signals = suc w.signals })
  -- the third select
  receives :
      (w : World) (r : CacheCaptureResult)
      → w.phase ≡ waiting
      → w.result ≡ some r
      → MainStep w (returns (finished_return r) w)
  is_cancelled :
      (w : World) (e : Failure)
      → w.phase ≡ waiting
      → w.ctx_err ≡ some e
      → MainStep w (record w { phase = draining e; closed = true })
  -- the last select, after the stream is closed
  drains :
      (w : World) (e : Failure) (r : CacheCaptureResult)
      → w.phase ≡ draining e
      → w.result ≡ some r
      → MainStep w (returns (cancelled_with e (some r)) w)
  times_out :
      (w : World) (e : Failure)
      → w.phase ≡ draining e
      → MainStep w (returns (cancelled_with e none) w)

-- A run from the call on.
pub data Reach : World → Type 0 where
  here : Reach new_world
  env_step : {w v : World} → Reach w → EnvStep w v → Reach v
  main_step : {w v : World} → Reach w → MainStep w v → Reach v
