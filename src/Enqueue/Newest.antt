-- ===== src/Enqueue/Newest.antt =====
-- Which event newest_enqueue_evidence selects.
use volens.Base.{
  ◌≤◌, ◌<◌, String, ◌≡◌, refl, sym, subst, ap, ◌⊎◌, inl, inr, Bool, true, false, ◌&&◌, ◌||◌, List,
  [], ◌∷◌, ◌++◌, All, arith, leb, Bool-cases, &&-true,
}
use volens.Kube.{Event}
use volens.Enqueue.Events.{
  EnqueueOutcome, unknown_outcome, classify_enqueue_event, event_observed_time, Selection,
  is_unknown_outcome, is_relevant, select_step, select_loop, no_selection, newest_enqueue_evidence,
}

-- `e` is the last of the newest events among the scheduler's that tell of an admission.
pub record IsNewest (scheduler_name : String) (events : List Event) (e : Event) (o : EnqueueOutcome)
    : Type 0 where
  pub before : List Event
  pub after : List Event
  pub split : events ≡ before ++ e ∷ after
  pub relevant : is_relevant scheduler_name e ≡ true
  pub classified : classify_enqueue_event e ≡ o
  pub not_older :
      All
        (λ x. is_relevant scheduler_name x ≡ true → event_observed_time x ≤ event_observed_time e)
        before
  pub newer :
      All
        (λ x. is_relevant scheduler_name x ≡ true → event_observed_time x < event_observed_time e)
        after

module _ (scheduler_name : String) where
  -- The test of the loop: the event replaces the selection.
  abbrev beats : Selection → Event → Bool
  beats s x =
      is_relevant scheduler_name x
      && (is_unknown_outcome s.outcome || leb s.time (event_observed_time x))

  abbrev of_event : Event → Selection
  of_event x = record {
    selected = x;
    outcome = classify_enqueue_event x;
    time = event_observed_time x;
  }

  step_beats :
      (s : Selection) (x : Event) → beats s x ≡ true → select_step scheduler_name s x ≡ of_event x
  unfolding select_step
  step_beats s x h = ground arith

  step_keeps : (s : Selection) (x : Event) → beats s x ≡ false → select_step scheduler_name s x ≡ s
  unfolding select_step
  step_keeps s x h = ground arith

  -- How the loop from `s` ends in `r`: with `s`, or with the newest event.
  abbrev Ends : Selection → List Event → Selection → Type 0
  Ends s events r =
      ((r ≡ s) × All (λ x. beats s x ≡ false) events)
      ⊎ (IsNewest scheduler_name events r.selected r.outcome × (beats s r.selected ≡ true))

  All-imp :
      {P Q : Event → Type 0} → ((x : Event) → P x → Q x) → (xs : List Event) → All P xs → All Q xs
  All-imp f [] h = tt
  All-imp f (x ∷ xs) (p, h) = (f x p, All-imp f xs h)

  -- One more event in front of the newest.
  IsNewest-cons :
      (x : Event) {events : List Event} {e : Event} {o : EnqueueOutcome}
      → (is_relevant scheduler_name x ≡ true → event_observed_time x ≤ event_observed_time e)
      → IsNewest scheduler_name events e o
      → IsNewest scheduler_name (x ∷ events) e o
  IsNewest-cons x h n = record {
    before = x ∷ n.before;
    after = n.after;
    split = ap (λ l. x ∷ l) n.split;
    relevant = n.relevant;
    classified = n.classified;
    not_older = (h, n.not_older);
    newer = n.newer;
  }

  not_beaten :
      (x y : Event)
      → is_relevant scheduler_name x ≡ true
      → beats (of_event x) y ≡ false
      → is_relevant scheduler_name y ≡ true
      → event_observed_time y < event_observed_time x
  not_beaten x y hx h hy = ground arith

  beats_trans :
      (s : Selection) (x e : Event)
      → beats s x ≡ true
      → beats (of_event x) e ≡ true
      → (beats s e ≡ true) × (event_observed_time x ≤ event_observed_time e)
  beats_trans s x e b c = ground arith

  older :
      (s : Selection) (x e : Event)
      → beats s x ≡ false
      → beats s e ≡ true
      → is_relevant scheduler_name x ≡ true
      → event_observed_time x ≤ event_observed_time e
  older s x e k b h = ground arith

  Ends-first :
      (s : Selection) (x : Event) (events : List Event) (r : Selection)
      → beats s x ≡ true
      → Ends (of_event x) events r
      → Ends s (x ∷ events) r
  Ends-first s x events r b (inl (e, none_beats)) =
      let relevant = (&&-true (is_relevant scheduler_name x) _).0 b in
      rw e (
        inr (
          record {
            before = [];
            after = events;
            split = refl;
            relevant = relevant.0;
            classified = refl;
            not_older = tt;
            newer = All-imp (λ y. not_beaten x y relevant.0) events none_beats;
          },
          b,
        ))
  Ends-first s x events r b (inr (newest, later)) =
      let (b', le) = beats_trans s x r.selected b later in
      inr (IsNewest-cons x (λ _. le) newest, b')

  Ends-keep :
      (s : Selection) (x : Event) (events : List Event) (r : Selection)
      → beats s x ≡ false
      → Ends s events r
      → Ends s (x ∷ events) r
  Ends-keep s x events r k (inl (e, none_beats)) = inl (e, (k, none_beats))
  Ends-keep s x events r k (inr (newest, b)) =
      inr (IsNewest-cons x (older s x r.selected k b) newest, b)

  ends : (s : Selection) (events : List Event) → Ends s events (select_loop scheduler_name s events)
  unfolding select_loop
  ends s [] = inl (refl, tt)
  ends s (x ∷ events) = elim (Bool-cases (beats s x)) [
    | inl b ↦
        subst (λ s'. Ends s (x ∷ events) (select_loop scheduler_name s' events))
          (sym (step_beats s x b)) (Ends-first s x events _ b (ends (of_event x) events))
    | inr k ↦
        subst (λ s'. Ends s (x ∷ events) (select_loop scheduler_name s' events))
          (sym (step_keeps s x k)) (Ends-keep s x events _ k (ends s events))
  ]

  known_outcome :
      {events : List Event} {e : Event} {o : EnqueueOutcome}
      → IsNewest scheduler_name events e o
      → is_unknown_outcome o ≡ false
  known_outcome n = ground (arith, n.relevant, n.classified)

  irrelevant : (x : Event) → beats no_selection x ≡ false → is_relevant scheduler_name x ≡ false
  irrelevant x h = ground arith

-- Of the events of the scheduler that tell of an admission, the newest is selected, with its
-- outcome, and of several newest the last. The outcome is unknown exactly when there is none.
pub newest_enqueue_evidence-IsNewest :
    (events : List Event) (scheduler_name : String)
    → let (e, o) = newest_enqueue_evidence events scheduler_name in
      ((o ≡ unknown_outcome) × All (λ x. is_relevant scheduler_name x ≡ false) events)
      ⊎ (IsNewest scheduler_name events e o × (is_unknown_outcome o ≡ false))
unfolding newest_enqueue_evidence
newest_enqueue_evidence-IsNewest events scheduler_name =
    elim (ends scheduler_name no_selection events) [
      | inl (e, none_beats) ↦ inl (
        ap (λ s. s.outcome) e,
        All-imp scheduler_name (irrelevant scheduler_name) events none_beats,
      )
      | inr (newest, _) ↦ inr (newest, known_outcome scheduler_name newest)
    ]
