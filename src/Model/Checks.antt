-- ===== src/Model/Checks.antt =====
-- internal/agent/model/check.go: the three ways to make a check, and what a list of checks says.
use volens.Base.{
  String, ◌≡◌, refl, ◌↔◌, Bool, true, false, not, ◌&&◌, List, [], ◌∷◌, arith, any, all,
}
use volens.Model.{Message, Evidence, nil, Check}

abbrev pub known : String → String → String → Bool → Message → List String → Check
known id stage name passed reason source = record {
  id = id;
  stage = stage;
  name = name;
  passed = passed;
  determinate = true;
  skipped = false;
  reason = reason;
  evidence = nil;
  source = source;
}

abbrev pub unknown : String → String → String → Message → Evidence → List String → Check
unknown id stage name reason evidence source = record {
  id = id;
  stage = stage;
  name = name;
  passed = false;
  determinate = false;
  skipped = false;
  reason = reason;
  evidence = evidence;
  source = source;
}

abbrev pub skipped : String → String → String → Message → List String → Check
skipped id stage name reason source = record {
  id = id;
  stage = stage;
  name = name;
  passed = true;
  determinate = true;
  skipped = true;
  reason = reason;
  evidence = nil;
  source = source;
}

-- `check.Evidence = e`
abbrev pub with_evidence : Evidence → Check → Check
with_evidence e c = record c { evidence = e }

-- The two readings of a check that the reports combine.
abbrev pub is_pass : Check → Bool
is_pass c = c.passed && c.determinate

abbrev pub is_failure : Check → Bool
is_failure c = c.determinate && not c.passed

abbrev pub is_unknown : Check → Bool
is_unknown c = not c.determinate

pub all-is_pass :
    (cs : List Check)
    → (all is_pass cs ≡ true) ↔ ((any is_failure cs ≡ false) × (any is_unknown cs ≡ false))
all-is_pass [] = (λ _. (refl, refl), λ _. refl)
all-is_pass (c ∷ cs) = ground (arith, all-is_pass cs)
