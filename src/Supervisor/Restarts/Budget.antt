-- ===== src/Supervisor/Restarts/Budget.antt =====
-- The budget of restarts: five failures in a minute, and what the quarantine records.
use msys_core.Common.{
  ℕ, zero, suc, ◌≤◌, ◌<◌, ◌≡◌, refl, true, false, none, some, [], ◌∷◌, ◌++◌, elem, length, ltb,
  if◌then◌else◌, ◌==◌, arith, length-append, Bool-cases, inl, inr, ◌⊎◌,
}
use msys_core.Common.Text.{Text, text_eq, text_beq_iff}
use msys_core.Common.Dict.{get, get-put}
use msys_core.Supervisor.Restarts.{
  Restarts, outage_defers, history_of, recent_failures, doubled, record_component_failure,
}
use msys_core.Value.{Value}

-- `t` has one failure more than `s`, of that key and time, and no failures older than a minute.
abbrev pub IsCounted : Text → ℕ → Restarts → Restarts → Type 0
IsCounted key now s t =
    (other : Text)
    → history_of other t
      ≡ (if key == other then recent_failures key now s ++ (now ∷ []) else history_of other s)

doubled_small : (n : ℕ) → n < 4 → doubled n ≤ 2000
doubled_small zero h = omega arith
doubled_small (suc zero) h = omega arith
doubled_small (suc (suc zero)) h = omega arith
doubled_small (suc (suc (suc zero))) h = omega arith
doubled_small (suc (suc (suc (suc n)))) h = omega arith

module _ (to_text : Value → Text) where
  abbrev after_failure : Text → ℕ → Restarts → Restarts
  after_failure key now s = (record_component_failure to_text key now s).1

  counted :
      (key : Text) (now : ℕ) (s : Restarts)
      → outage_defers to_text key s ≡ false
      → IsCounted key now s (after_failure key now s)
  unfolding record_component_failure history_of
  counted key now s d other =
      ground (arith, get-put key other (recent_failures key now s ++ (now ∷ [])) s.failure_history)

  pub counted_same :
      (key : Text) (now : ℕ) (s : Restarts)
      → outage_defers to_text key s ≡ false
      → history_of key (after_failure key now s) ≡ recent_failures key now s ++ (now ∷ [])
  counted_same key now s d = ground (arith, counted key now s d key, text_beq_iff key key)

  -- What a failure of a component does, with n failures in the minute before. One that a display
  -- outage defers changes nothing and has no delay. Any other is counted for its component and no
  -- other. It is the fifth, or a later one, if n is four or more: no delay, and quarantine with its
  -- time. Else the delay is a quarter of a second doubled n times, which is two seconds at most, and
  -- the quarantine is as before.
  pub record_component_failure_lem :
      (key : Text) (now : ℕ) (s : Restarts)
      → let (delay, t) = record_component_failure to_text key now s in
        let n = length (recent_failures key now s) in
        (outage_defers to_text key s ≡ true) × (delay ≡ none) × (t ≡ s)
        ⊎ (outage_defers to_text key s ≡ false)
          × IsCounted key now s t
          × ((4 ≤ n)
                × (delay ≡ none)
                × (elem key t.quarantined ≡ true)
                × (get key t.quarantine_times ≡ some now)
              ⊎ (n < 4)
                × (delay ≡ some (doubled n))
                × (doubled n ≤ 2000)
                × (t.quarantined ≡ s.quarantined))
  unfolding record_component_failure
  record_component_failure_lem key now s =
      let n = length (recent_failures key now s) in
      let more = length-append (recent_failures key now s) (now ∷ []) in
      elim (Bool-cases (outage_defers to_text key s)) [
        | inl d ↦ rw (d) (inl (refl, refl, refl))
        | inr d ↦ inr (
          d,
          counted key now s d,
          elim (Bool-cases (ltb n 4)) [
            | inl few ↦ inr (ground (arith, doubled_small n))
            | inr many ↦
                inl (ground (arith, get-put key key now s.quarantine_times, text_beq_iff key key))
          ],
        )
      ]
