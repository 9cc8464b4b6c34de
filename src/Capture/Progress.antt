-- ===== src/Capture/Progress.antt =====
-- A capture comes to its end: its steps are bounded, and once the context has ended it can always
-- take one more until it has returned.
use volens.Base.{ℕ, suc, ◌<◌, ◌≡◌, arith, ap}
use volens.Capture.Stream.{
  CaptureReturn, Phase, starting, checking, signalling, waiting, draining, returned, World, EnvStep,
  MainStep, sees_start, start_cancelled, ends_early, goes_on, signal_fails, signal_sent, receives,
  is_cancelled, drains, times_out,
}

-- How many steps are left at most.
abbrev pub rank : Phase → ℕ
rank starting = 5
rank checking = 4
rank signalling = 3
rank waiting = 2
rank (draining e) = 1
rank (returned ret) = 0

at_rank : (w : World) (p : Phase) → w.phase ≡ p → rank w.phase ≡ rank p
at_rank w p e = ap rank e

-- Every step leads closer to the return.
pub MainStep-rank : {w v : World} → MainStep w v → rank v.phase < rank w.phase
MainStep-rank (sees_start w p s) = let r = at_rank w starting p in omega arith
MainStep-rank (start_cancelled w e p c) = let r = at_rank w starting p in omega arith
MainStep-rank (ends_early w r p e) = let q = at_rank w checking p in omega arith
MainStep-rank (goes_on w p e) = let r = at_rank w checking p in omega arith
MainStep-rank (signal_fails w e p) = let r = at_rank w signalling p in omega arith
MainStep-rank (signal_sent w p) = let r = at_rank w signalling p in omega arith
MainStep-rank (receives w r p e) = let q = at_rank w waiting p in omega arith
MainStep-rank (is_cancelled w e p c) = let r = at_rank w waiting p in omega arith
MainStep-rank (drains w e r p q) = let t = at_rank w (draining e) p in omega arith
MainStep-rank (times_out w e p) = let r = at_rank w (draining e) p in omega arith

-- A run of the function, of `n` steps of its own between which the scanner and the context move.
pub data Steps : ℕ → World → World → Type 0 where
  done : {w : World} → Steps 0 w w
  moves : {n : ℕ} {u v w : World} → EnvStep u v → Steps n v w → Steps n u w
  goes : {n : ℕ} {u v w : World} → MainStep u v → Steps n v w → Steps (suc n) u w

abbrev IsReturned : World → Type 0
IsReturned w = (ret : CaptureReturn) × (w.phase ≡ returned ret)

abbrev IsStuck : World → Type 0
IsStuck w = (v : World) → ¬ MainStep w v
