-- ===== src/Supervisor/Foreground/Fronts.antt =====
-- What is in front after the operations on the foreground, and what always holds of it.
use msys_core.Common.{
  remove_all_absent, ◌≡◌, refl, Bool, true, false, not, ◌||◌, none, some, List, [], ◌∷◌, ◌++◌, elem,
  filter, remove_all, if◌then◌else◌, arith, IsNodup, elem-remove_all, remove_all-IsNodup,
  elem-append, elem-filter, Bool-cases, inl, inr,
}
use msys_core.Common.Text.{Text, text_eq, text_beq_iff}
use msys_core.Supervisor.Instances.{Instances}
use msys_core.Supervisor.Foreground.{
  Foreground, no_foreground, add, mark_foreground, hide_next, forget_foreground, is_top,
  background_foreground, is_ready_key, restore_foreground, front,
}

-- No application stands twice, and only applications that are there are hidden.
pub record IsForeground (s : Foreground) : Type 0 where
  pub once : IsNodup s.stack
  pub hidden : (key : Text) → elem key s.backgrounded ≡ true → elem key s.stack ≡ true

-- The changes of the foreground; a snapshot that is restored has no application twice.
pub data Step (s : Foreground) : Foreground → Type 0 where
  marked : (key : Text) → Step s (mark_foreground key s)
  forgotten : (key : Text) → Step s (forget_foreground key s)
  hidden : (key : Text) → Step s (background_foreground key s).1
  restored :
      (instances : Instances) (snapshot : List Text)
      → IsNodup snapshot
      → Step s (restore_foreground instances snapshot s)

pub data Reachable : Foreground → Type 0 where
  initial : Reachable no_foreground
  step : {s t : Foreground} → Reachable s → Step s t → Reachable t

filter-IsNodup : (p : Text → Bool) (keys : List Text) → IsNodup keys → IsNodup (filter p keys)
filter-IsNodup p [] n = n
filter-IsNodup p (k ∷ keys) n = ground (arith, filter-IsNodup p keys n.1, elem-filter p k keys)

append-IsNodup :
    (xs ys : List Text)
    → IsNodup xs
    → IsNodup ys
    → ((key : Text) → elem key xs ≡ true → elem key ys ≡ false)
    → IsNodup (xs ++ ys)
append-IsNodup [] ys n m apart = m
append-IsNodup (x ∷ xs) ys n m apart = (
  ground (arith, elem-append x xs ys, apart x (ground (arith, text_beq_iff x x))),
  append-IsNodup xs ys n.1 m (λ key e. apart key (ground arith)),
)

elem-hide_next :
    (key : Text) (was : Bool) (stack backgrounded : List Text)
    → elem key (hide_next was stack backgrounded) ≡ true
    → (elem key backgrounded || elem key stack) ≡ true
unfolding hide_next
elem-hide_next key true (top ∷ below) backgrounded e = ground arith
elem-hide_next key true [] backgrounded e = ground arith
elem-hide_next key false stack backgrounded e = ground arith

mark-IsForeground :
    (key : Text) (s : Foreground) → IsForeground s → IsForeground (mark_foreground key s)
unfolding mark_foreground
mark-IsForeground key s h = record {
  once = (
    ground (arith, elem-remove_all key key s.stack, text_beq_iff key key),
    remove_all-IsNodup key s.stack h.once,
  );
  hidden = λ k e.
      ground
        (arith, elem-remove_all key k s.stack, elem-remove_all key k s.backgrounded, h.hidden k);
}

forget-IsForeground :
    (key : Text) (s : Foreground) → IsForeground s → IsForeground (forget_foreground key s)
unfolding forget_foreground
forget-IsForeground key s h = record {
  once = remove_all-IsNodup key s.stack h.once;
  hidden = λ k e. ground (
    arith,
    elem-hide_next k (elem key s.backgrounded) (remove_all key s.stack)
        (remove_all key s.backgrounded),
    elem-remove_all key k s.stack,
    elem-remove_all key k s.backgrounded,
    h.hidden k,
  );
}

elem-top : (key : Text) (stack : List Text) → is_top key stack ≡ true → elem key stack ≡ true
elem-top key [] h = h
elem-top key (top ∷ below) h = ground arith

background-IsForeground :
    (key : Text) (s : Foreground) → IsForeground s → IsForeground (background_foreground key s).1
unfolding background_foreground
background-IsForeground key s h = elim (Bool-cases (is_top key s.stack)) [
  | inl here ↦ rw (here) (record {
    once = h.once;
    hidden = λ k e. ground (arith, h.hidden k, elem-top key s.stack, text_beq_iff key k);
  })
  | inr there ↦ rw (there) h
]

restore-IsForeground :
    (instances : Instances) (snapshot : List Text) (s : Foreground)
    → IsNodup snapshot
    → IsForeground s
    → IsForeground (restore_foreground instances snapshot s)
unfolding restore_foreground
restore-IsForeground instances snapshot s n h =
    let ready = filter (is_ready_key instances) snapshot in
    let others = filter (λ key. not (elem key ready)) s.stack in
    record {
      once =
          append-IsNodup ready others (filter-IsNodup (is_ready_key instances) snapshot n)
            (filter-IsNodup (λ key. not (elem key ready)) s.stack h.once)
            (λ key e. ground (arith, elem-filter (λ key. not (elem key ready)) key s.stack));
      hidden = λ k e. ground (
        arith,
        elem-append k ready others,
        elem-filter (λ key. not (elem key ready)) k s.stack,
        h.hidden k,
      );
    }

-- After any changes from the start, no application stands twice in the foreground stack, and only
-- applications of the stack are hidden.
pub Reachable-IsForeground : (s : Foreground) → Reachable s → IsForeground s
Reachable-IsForeground s initial = record { once = tt; hidden = λ k e. e }
Reachable-IsForeground t (step {s = s} r (marked key)) =
    mark-IsForeground key s (Reachable-IsForeground s r)
Reachable-IsForeground t (step {s = s} r (forgotten key)) =
    forget-IsForeground key s (Reachable-IsForeground s r)
Reachable-IsForeground t (step {s = s} r (hidden key)) =
    background-IsForeground key s (Reachable-IsForeground s r)
Reachable-IsForeground t (step {s = s} r (restored instances snapshot n)) =
    restore-IsForeground instances snapshot s n (Reachable-IsForeground s r)

elem-add : (key : Text) (keys : List Text) → elem key (add key keys) ≡ true
elem-add key keys = ground (arith, text_beq_iff key key)

front-hide_next :
    (stack backgrounded : List Text)
    → front (record { stack = stack; backgrounded = hide_next true stack backgrounded }) ≡ none
unfolding front hide_next
front-hide_next [] backgrounded = refl
front-hide_next (top ∷ below) backgrounded = rw (elem-add top backgrounded) refl

front_hidden_top :
    (key : Text) (stack backgrounded : List Text)
    → is_top key stack ≡ true
    → front (record { stack = stack; backgrounded = add key backgrounded }) ≡ none
unfolding front
front_hidden_top key [] backgrounded h = refl
front_hidden_top key (top ∷ below) backgrounded h =
    ground (arith, elem-add key backgrounded, text_beq_iff top key)

-- What is in front after each change: the application that comes to the front; after Home nothing,
-- if it was in front, and else what was; once an application has ended nothing, if it was hidden,
-- whatever was in front, and else what is in front without it.
pub front_lem :
    (key : Text) (s : Foreground)
    → (front (mark_foreground key s) ≡ some key)
      × (front (background_foreground key s).1 ≡ (if is_top key s.stack then none else front s))
      × (front (forget_foreground key s) ≡ (
          if elem key s.backgrounded
          then none
          else front (record { stack = remove_all key s.stack; backgrounded = s.backgrounded })))
unfolding front mark_foreground background_foreground forget_foreground
front_lem key s = (
  ground (arith, elem-remove_all key key s.backgrounded, text_beq_iff key key),
  elim (Bool-cases (is_top key s.stack)) [
    | inl here ↦ rw (here) (front_hidden_top key s.stack s.backgrounded here)
    | inr there ↦ rw (there) refl
  ],
  elim (Bool-cases (elem key s.backgrounded)) [
    | inl e ↦ rw (e) (front-hide_next (remove_all key s.stack) (remove_all key s.backgrounded))
    | inr e ↦ rw (e, remove_all_absent key s.backgrounded e) refl
  ],
)
