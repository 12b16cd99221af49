-- ===== src/Supervisor/Foreground/Reclaim.antt =====
-- Which application the supervisor stops when memory runs short.
use msys_core.Common.{
  ℕ, ◌≡◌, refl, ap, Bool, true, false, not, ◌&&◌, Option, none, some, List, [], ◌∷◌, ◌++◌, all,
  if◌then◌else◌, arith, Bool-cases, Option-cases, inl, inr,
}
use msys_core.Common.Text.{Text, text_eq}
use msys_core.Common.Dict.{get}
use msys_core.Supervisor.Instances.{Instance, Instances}
use msys_core.Supervisor.Foreground.{
  Foreground, front, is_front, reversed, is_reclaimable, oldest, memory_reclaim_candidate,
}
use msys_core.Value.{Value}

module _ (to_text : Value → Text) (instances : Instances) (minimum_age now : ℕ) where
  -- Not the application in front, and its instance may be stopped.
  abbrev pub is_eligible : Option Text → Text → Bool
  is_eligible foreground key = not (is_front foreground key) && elim (get key instances) [
    | none ↦ false
    | some i ↦ is_reclaimable to_text minimum_age now i
  ]

  -- `i` is the instance of the eligible key that stands last in the stack.
  pub record IsOldest (foreground : Option Text) (stack : List Text) (i : Instance) : Type 0 where
    pub key : Text
    pub younger : List Text
    pub older : List Text
    pub placed : stack ≡ younger ++ (key ∷ older)
    pub started : get key instances ≡ some i
    pub eligible : is_eligible foreground key ≡ true
    pub last : all (λ k. not (is_eligible foreground k)) older ≡ true

  -- What the search must return: that instance, or None if no key is eligible.
  abbrev pub Chosen : Option Text → List Text → Option Instance → Type 0
  Chosen foreground stack none = all (λ k. not (is_eligible foreground k)) stack ≡ true
  Chosen foreground stack (some i) = IsOldest foreground stack i

  abbrev or_else : Option Instance → Option Instance → Option Instance
  or_else none later = later
  or_else (some i) later = some i

  oldest_last :
      (foreground : Option Text) (keys : List Text) (key : Text)
      → oldest to_text instances minimum_age now foreground (keys ++ (key ∷ []))
        ≡ or_else
            (oldest to_text instances minimum_age now foreground keys)
            (oldest to_text instances minimum_age now foreground (key ∷ []))
  unfolding oldest
  oldest_last foreground [] key = refl
  oldest_last foreground (k ∷ keys) key = ground (arith, oldest_last foreground keys key)

  oldest_one :
      (foreground : Option Text) (key : Text)
      → oldest to_text instances minimum_age now foreground (key ∷ [])
        ≡ (if is_eligible foreground key then get key instances else none)
  unfolding oldest
  oldest_one foreground key = ground arith

  eligible_started :
      (foreground : Option Text) (key : Text)
      → is_eligible foreground key ≡ true
      → (i : Instance) × (get key instances ≡ some i)
  eligible_started foreground key e = elim (Option-cases (get key instances)) [
    | inl n ↦ absurd (ground arith)
    | inr (i, k) ↦ (i, k)
  ]

  -- The oldest of a stack is that of its lower part, or else the one on top.
  Chosen-above :
      (foreground : Option Text) (key : Text) (below : List Text) (found : Option Instance)
      → Chosen foreground below found
      → Chosen foreground
          (key ∷ below)
          (or_else found (if is_eligible foreground key then get key instances else none))
  Chosen-above foreground key below (some i) f = record {
    key = f.key;
    younger = key ∷ f.younger;
    older = f.older;
    placed = ap (◌∷◌ key) f.placed;
    started = f.started;
    eligible = f.eligible;
    last = f.last;
  }
  Chosen-above foreground key below none missed = elim (Bool-cases (is_eligible foreground key)) [
    | inl e ↦
        let (i, started) = eligible_started foreground key e in
        rw (e, started)
          (record {
            key = key;
            younger = [];
            older = below;
            placed = refl;
            started = started;
            eligible = e;
            last = missed;
          })
    | inr e ↦ rw (e) (ground (arith, e, missed))
  ]

  oldest-Chosen :
      (foreground : Option Text) (stack : List Text)
      → Chosen foreground stack
          (oldest to_text instances minimum_age now foreground (reversed stack))
  unfolding oldest
  oldest-Chosen foreground [] = refl
  oldest-Chosen foreground (key ∷ below) =
      rw (oldest_last foreground (reversed below) key, oldest_one foreground key)
        (Chosen-above foreground key below
          (oldest to_text instances minimum_age now foreground (reversed below))
          (oldest-Chosen foreground below))

  -- The application that is stopped is the one furthest back in the stack that is not in front,
  -- runs as an ordinary application, and is old enough; nothing is stopped only if there is none.
  pub memory_reclaim_candidate-Chosen :
      (s : Foreground)
      → Chosen (front s) s.stack (memory_reclaim_candidate to_text instances minimum_age now s)
  unfolding memory_reclaim_candidate
  memory_reclaim_candidate-Chosen s = oldest-Chosen (front s) s.stack
