-- ===== src/Capture/Safety.antt =====
-- What every run of a capture keeps.
use volens.Base.{suc, ◌≤◌, ◌≡◌, refl, sym, true, Option, none, some, arith, ◌≢◌, subst, ap}
use volens.Model.{Failure}
use volens.Capture.Scan.{CacheCaptureResult}
use volens.Capture.Stream.{
  CaptureReturn, early_return, finished_return, Phase, starting, checking, signalling, waiting,
  draining, returned, World, EnvStep, begins_reading, gives_result, expires, MainStep, sees_start,
  start_cancelled, ends_early, goes_on, signal_fails, signal_sent, receives, is_cancelled, drains,
  times_out, Reach, here, env_step, main_step,
}

-- A result without an error is the complete dump that the scanner gave.
abbrev pub IsDump : CaptureReturn → Option CacheCaptureResult → Type 0
IsDump ret none = ⊥
IsDump ret (some r) =
    (r.err ≡ none) × (r.last_parse_err ≡ none) × (ret.nodes ≡ some r.nodes) × (ret.jobs ≡ r.jobs)

-- A return without an error had its signal sent once.
abbrev IsBacked : CaptureReturn → World → Type 0
IsBacked ret w = ret.err ≡ none → (w.signals ≡ 1) × IsDump ret w.result

abbrev IsConsistent : Phase → World → Type 0
IsConsistent starting w = w.signals ≡ 0
IsConsistent checking w = w.signals ≡ 0
IsConsistent signalling w = w.signals ≡ 0
IsConsistent waiting w = w.signals ≡ 1
IsConsistent (draining e) w = (w.signals ≡ 1) × (w.closed ≡ true)
IsConsistent (returned ret) w = (w.signals ≤ 1) × (w.closed ≡ true) × IsBacked ret w

abbrev IsValid : World → Type 0
IsValid w = IsConsistent w.phase w

-- The same through the phase, for a world whose phase is known.
at_phase : (w : World) (p : Phase) → w.phase ≡ p → IsValid w → IsConsistent p w
at_phase w p e valid = subst (λ q. IsConsistent q w) e valid

finished_return-err :
    (r : CacheCaptureResult) → (finished_return r).err ≡ none → IsDump (finished_return r) (some r)
unfolding finished_return
finished_return-err r e = ground arith

early_return-err : (r : CacheCaptureResult) → (early_return r).err ≢ none
unfolding early_return
early_return-err r e = ground arith

IsBacked-finished_return :
    (r : CacheCaptureResult) (w : World)
    → w.signals ≡ 1
    → w.result ≡ some r
    → IsBacked (finished_return r) w
IsBacked-finished_return r w s e fine =
    (s, subst (IsDump (finished_return r)) (sym e) (finished_return-err r fine))

MainStep-IsValid : {w v : World} → MainStep w v → IsValid w → IsValid v
MainStep-IsValid (sees_start w e s) valid = at_phase w starting e valid
MainStep-IsValid (start_cancelled w e p c) valid =
    let s = at_phase w starting p valid in (omega arith, refl, λ fine. cc fine)
MainStep-IsValid (ends_early w r p e) valid =
    let s = at_phase w checking p valid in
    (omega arith, refl, λ fine. absurd (early_return-err r fine))
MainStep-IsValid (goes_on w p e) valid = at_phase w checking p valid
MainStep-IsValid (signal_fails w e p) valid =
    let s = at_phase w signalling p valid in (omega arith, refl, λ fine. cc fine)
MainStep-IsValid (signal_sent w p) valid = ap suc (at_phase w signalling p valid)
MainStep-IsValid (receives w r p e) valid =
    let s = at_phase w waiting p valid in (omega arith, refl, IsBacked-finished_return r w s e)
MainStep-IsValid (is_cancelled w e p c) valid = (at_phase w waiting p valid, refl)
MainStep-IsValid (drains w e r p q) valid =
    let s = (at_phase w (draining e) p valid).0 in (omega arith, refl, λ fine. cc fine)
MainStep-IsValid (times_out w e p) valid =
    let s = (at_phase w (draining e) p valid).0 in (omega arith, refl, λ fine. cc fine)

gives_result-IsConsistent :
    (p : Phase) (w : World) (r : CacheCaptureResult)
    → w.result ≡ none
    → IsConsistent p w
    → IsConsistent p (record w { result = some r })
gives_result-IsConsistent starting w r e valid = valid
gives_result-IsConsistent checking w r e valid = valid
gives_result-IsConsistent signalling w r e valid = valid
gives_result-IsConsistent waiting w r e valid = valid
gives_result-IsConsistent (draining f) w r e valid = valid
gives_result-IsConsistent (returned ret) w r e (s, c, b) =
    (s, c, λ fine. absurd (subst (IsDump ret) e (b fine).1))

begins_reading-IsConsistent :
    (p : Phase) (w : World) → IsConsistent p w → IsConsistent p (record w { read_started = true })
begins_reading-IsConsistent starting w valid = valid
begins_reading-IsConsistent checking w valid = valid
begins_reading-IsConsistent signalling w valid = valid
begins_reading-IsConsistent waiting w valid = valid
begins_reading-IsConsistent (draining e) w valid = valid
begins_reading-IsConsistent (returned ret) w valid = valid

expires-IsConsistent :
    (p : Phase) (w : World) (e : Failure)
    → IsConsistent p w
    → IsConsistent p (record w { ctx_err = some e })
expires-IsConsistent starting w e valid = valid
expires-IsConsistent checking w e valid = valid
expires-IsConsistent signalling w e valid = valid
expires-IsConsistent waiting w e valid = valid
expires-IsConsistent (draining f) w e valid = valid
expires-IsConsistent (returned ret) w e valid = valid

EnvStep-IsValid : {w v : World} → EnvStep w v → IsValid w → IsValid v
EnvStep-IsValid (begins_reading w) valid = begins_reading-IsConsistent w.phase w valid
EnvStep-IsValid (gives_result w r s e) valid = gives_result-IsConsistent w.phase w r e valid
EnvStep-IsValid (expires w e n) valid = expires-IsConsistent w.phase w e valid

Reach-IsValid : {w : World} → Reach w → IsValid w
Reach-IsValid here = refl
Reach-IsValid (env_step run s) = EnvStep-IsValid s (Reach-IsValid run)
Reach-IsValid (main_step run s) = MainStep-IsValid s (Reach-IsValid run)

-- Whatever the scanner and the context do and in whatever order: where captureCacheDumpFromStream has
-- returned no error, it has closed the stream, the signal has succeeded exactly once, and the nodes
-- and jobs it returned are those of the scanner's result, which has neither an error nor a line that
-- could not be read.
pub Reach-returned :
    (w : World) (ret : CaptureReturn)
    → Reach w
    → w.phase ≡ returned ret
    → ret.err ≡ none
    → (w.closed ≡ true) × (w.signals ≡ 1) × IsDump ret w.result
Reach-returned w ret run p fine =
    let (s, c, b) = at_phase w (returned ret) p (Reach-IsValid run) in
    let (sent, dump) = b fine in (c, sent, dump)
