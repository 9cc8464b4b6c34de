-- ===== src/Presentation/Checks/Replace.antt =====
-- replaceCheck: what it leaves, and that the replacement stands in the list once.
use volens.Base.{String, ◌≡◌, Bool, true, false, List, [], ◌∷◌, ◌==◌, arith, filter, if◌then◌else◌}
use volens.Model.{Check}
use volens.Presentation.Checks.{remove_check, replace_loop, replace_check}

abbrev pub with_id : String → List Check → List Check
with_id id checks = filter (λ check. check.id == id) checks

with_id-replace_loop :
    (replaced : Bool) (checks : List Check) (id : String) (replacement : Check)
    → (replacement.id == id) ≡ true
    → with_id id (replace_loop replaced checks id replacement)
      ≡ (if replaced then [] else replacement ∷ [])
unfolding replace_loop
with_id-replace_loop replaced [] id replacement h = ground arith
with_id-replace_loop replaced (check ∷ checks) id replacement h = ground (
  arith,
  with_id-replace_loop true checks id replacement h,
  with_id-replace_loop replaced checks id replacement h,
)

remove_check-replace_loop :
    (replaced : Bool) (checks : List Check) (id : String) (replacement : Check)
    → (replacement.id == id) ≡ true
    → remove_check (replace_loop replaced checks id replacement) id ≡ remove_check checks id
unfolding replace_loop remove_check
remove_check-replace_loop replaced [] id replacement h = ground arith
remove_check-replace_loop replaced (check ∷ checks) id replacement h = ground (
  arith,
  remove_check-replace_loop true checks id replacement h,
  remove_check-replace_loop replaced checks id replacement h,
)

pub replace_check_lem :
    (checks : List Check) (id : String) (replacement : Check)
    → (replacement.id == id) ≡ true
    → (with_id id (replace_check checks id replacement) ≡ replacement ∷ [])
      × (remove_check (replace_check checks id replacement) id ≡ remove_check checks id)
unfolding replace_check
replace_check_lem checks id replacement h = (
  with_id-replace_loop false checks id replacement h,
  remove_check-replace_loop false checks id replacement h,
)
