-- ===== src/Supervisor/Restarts/Quarantine.antt =====
-- Failures in sequence: when they lead to a quarantine, and what the quarantine records agree on.
use msys_core.Common.{
  ℕ, ◌+◌, ◌≤◌, ◌≡◌, refl, sym, ap, ◌∙◌, Bool, true, false, ◌&&◌, List, [], ◌∷◌, ◌++◌, all, elem,
  filter, remove_all, length, ltb, leb, arith, length-append, elem-remove_all, Bool-cases, inl, inr,
  IsNodup,
}
use msys_core.Common.Text.{Text, text_eq, text_beq_iff}
use msys_core.Common.Dict.{
  Dict, remove, has, keys, get-put, get-remove, keys-put-IsNodup, keys-remove-IsNodup,
}
use msys_core.Supervisor.Restarts.{
  Restarts, outage_defers, window_ms, history_of, recent_failures, record_component_failure,
  forget_failures, lift_quarantine, lift_quarantines,
}
use msys_core.Supervisor.Restarts.Budget.{counted_same, record_component_failure_lem}
use msys_core.Value.{Value}

-- All times of a list lie in the minute from `start`.
abbrev pub in_minute : ℕ → List ℕ → Bool
in_minute start times = all (λ t. leb start t && ltb t (start + window_ms)) times

filter-append :
    (p : ℕ → Bool) (xs ys : List ℕ) → all p ys ≡ true → filter p (xs ++ ys) ≡ filter p xs ++ ys
filter-append p [] [] h = refl
filter-append p [] (y ∷ ys) h = ground (arith, filter-append p [] ys)
filter-append p (x ∷ xs) ys h = ground (arith, filter-append p xs ys h)

still_recent :
    (start now : ℕ) (times : List ℕ)
    → in_minute start (now ∷ times) ≡ true
    → all (λ t. ltb now (t + window_ms)) times ≡ true
still_recent start now [] h = refl
still_recent start now (t ∷ times) h = ground (arith, still_recent start now times)

in_minute-append :
    (start : ℕ) (xs ys : List ℕ)
    → in_minute start (xs ++ ys) ≡ (in_minute start xs && in_minute start ys)
in_minute-append start [] ys = refl
in_minute-append start (x ∷ xs) ys = ground (arith, in_minute-append start xs ys)

append_assoc : (xs ys zs : List ℕ) → (xs ++ ys) ++ zs ≡ xs ++ (ys ++ zs)
append_assoc [] ys zs = refl
append_assoc (x ∷ xs) ys zs = ap (◌∷◌ x) (append_assoc xs ys zs)

append_nil : (xs : List ℕ) → xs ++ [] ≡ xs
append_nil [] = refl
append_nil (x ∷ xs) = ap (◌∷◌ x) (append_nil xs)

module _ (to_text : Value → Text) where
  -- The failures of one component at the times of a list.
  abbrev pub fail_at : Text → List ℕ → Restarts → Restarts
  fail_at key [] s = s
  fail_at key (now ∷ times) s = fail_at key times (record_component_failure to_text key now s).1

  defers_same :
      (key : Text) (now : ℕ) (s : Restarts)
      → outage_defers to_text key (record_component_failure to_text key now s).1
        ≡ outage_defers to_text key s
  unfolding record_component_failure outage_defers
  defers_same key now s = ground arith

  quarantined_kept :
      (key : Text) (times : List ℕ) (s : Restarts)
      → elem key s.quarantined ≡ true
      → elem key (fail_at key times s).quarantined ≡ true
  unfolding record_component_failure
  quarantined_kept key [] s h = h
  quarantined_kept key (now ∷ times) s h =
      quarantined_kept key times (record_component_failure to_text key now s).1 (ground arith)

  -- `seen` are the last failures of the history.
  fail_at_from :
      (start : ℕ) (key : Text) (times before seen : List ℕ) (s : Restarts)
      → outage_defers to_text key s ≡ false
      → history_of key s ≡ before ++ seen
      → in_minute start seen ≡ true
      → in_minute start times ≡ true
      → 1 ≤ length times
      → 5 ≤ length seen + length times
      → elem key (fail_at key times s).quarantined ≡ true
  unfolding recent_failures
  fail_at_from start key [] before seen s d h p q one five = absurd (omega arith)
  fail_at_from start key (now ∷ times) before seen s d h p q one five =
      let t = (record_component_failure to_text key now s).1 in
      let recents : recent_failures key now s
          ≡ filter (λ x. ltb now (x + window_ms)) before ++ seen =
        ap (filter (λ x. ltb now (x + window_ms))) h
        ∙ filter-append (λ x. ltb now (x + window_ms)) before seen
            (still_recent start now seen (ground arith)) in
      let many =
        ap length recents ∙ length-append (filter (λ x. ltb now (x + window_ms)) before) seen in
      elim (Bool-cases (leb 1 (length times))) [
        | inl more ↦
            fail_at_from start key times (filter (λ x. ltb now (x + window_ms)) before)
              (seen ++ (now ∷ [])) t (defers_same key now s ∙ d)
              (counted_same to_text key now s d
                ∙ ap (λ r. r ++ (now ∷ [])) recents
                ∙ append_assoc (filter (λ x. ltb now (x + window_ms)) before) seen (now ∷ []))
              (ground (arith, in_minute-append start seen (now ∷ []))) (ground arith) (ground arith)
              (ground (arith, length-append seen (now ∷ [])))
        | inr last ↦
            quarantined_kept key times t
              (ground (arith, many, record_component_failure_lem to_text key now s))
      ]

  -- Five failures of a component in a minute put it in quarantine, whatever failed before, unless a
  -- display outage defers its failures.
  pub fail_at-quarantined :
      (start : ℕ) (key : Text) (times : List ℕ) (s : Restarts)
      → outage_defers to_text key s ≡ false
      → in_minute start times ≡ true
      → 5 ≤ length times
      → elem key (fail_at key times s).quarantined ≡ true
  fail_at-quarantined start key times s d q five =
      fail_at_from start key times (history_of key s) [] s d (sym (append_nil (history_of key s)))
        refl q (omega (arith, five)) (omega (arith, five))

  -- What can happen to the budget.
  pub data Event : Type 0 where
    failed : Text → ℕ → Event
    replaced : Text → Event
    lifted : ℕ → List Text → Event

  pub after : Event → Restarts → Restarts
  after (failed key now) s = (record_component_failure to_text key now s).1
  after (replaced key) s = forget_failures key s
  after (lifted cutoff ordered) s = lift_quarantines cutoff ordered s

  abbrev pub run : List Event → Restarts → Restarts
  run [] s = s
  run (event ∷ events) s = run events (after event s)

  -- The quarantined keys are those that have a time, and no dict has a key twice.
  pub record IsConsistent (s : Restarts) : Type 0 where
    pub timed : (key : Text) → elem key s.quarantined ≡ has key s.quarantine_times
    pub times_once : IsNodup (keys s.quarantine_times)
    pub history_once : IsNodup (keys s.failure_history)

  failed-IsConsistent :
      (key : Text) (now : ℕ) (s : Restarts)
      → IsConsistent s
      → IsConsistent (record_component_failure to_text key now s).1
  unfolding record_component_failure
  failed-IsConsistent key now s h = record {
    timed =
        λ k. ground (arith, h.timed k, get-put key k now s.quarantine_times, text_beq_iff key k);
    times_once = ground (arith, h.times_once, keys-put-IsNodup key now s.quarantine_times);
    history_once = ground (
      arith,
      h.history_once,
      keys-put-IsNodup key (recent_failures key now s ++ (now ∷ [])) s.failure_history,
    );
  }

  unquarantined :
      (key : Text) (s : Restarts) (history : Dict Text (List ℕ))
      → IsConsistent s
      → IsNodup (keys history)
      → IsConsistent (record s {
        failure_history = history;
        quarantined = remove_all key s.quarantined;
        quarantine_times = remove key s.quarantine_times;
      })
  unquarantined key s history h n = record {
    timed = λ k. ground (
      arith,
      h.timed k,
      get-remove key k s.quarantine_times h.times_once,
      elem-remove_all key k s.quarantined,
      text_beq_iff key k,
    );
    times_once = keys-remove-IsNodup key s.quarantine_times h.times_once;
    history_once = n;
  }

  lifted-IsConsistent :
      (cutoff : ℕ) (ordered : List Text) (s : Restarts)
      → IsConsistent s
      → IsConsistent (lift_quarantines cutoff ordered s)
  unfolding lift_quarantines
  lifted-IsConsistent cutoff [] s h = h
  lifted-IsConsistent cutoff (key ∷ ordered) s h =
      lifted-IsConsistent cutoff ordered (lift_quarantine cutoff key s)
        (ground (arith, h, unquarantined key s s.failure_history h h.history_once))

  after-IsConsistent :
      (event : Event) (s : Restarts) → IsConsistent s → IsConsistent (after event s)
  unfolding after forget_failures
  after-IsConsistent (failed key now) s h = failed-IsConsistent key now s h
  after-IsConsistent (replaced key) s h =
      unquarantined key s (remove key s.failure_history) h
        (keys-remove-IsNodup key s.failure_history h.history_once)
  after-IsConsistent (lifted cutoff ordered) s h = lifted-IsConsistent cutoff ordered s h

  -- After any failures, replacements and display outages, a component is in quarantine exactly if the
  -- time of its quarantine is known, if that was so at first.
  pub run-IsConsistent :
      (events : List Event) (s : Restarts) → IsConsistent s → IsConsistent (run events s)
  run-IsConsistent [] s h = h
  run-IsConsistent (event ∷ events) s h =
      run-IsConsistent events (after event s) (after-IsConsistent event s h)
