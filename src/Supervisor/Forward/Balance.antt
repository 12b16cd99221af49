-- ===== src/Supervisor/Forward/Balance.antt =====
-- What is sent, what the response says of it, and that each call is counted once.
use msys_core.Common.{
  ℕ, suc, ◌-◌, ◌≤◌, ◌≡◌, ◌⊎◌, Option, true, false, none, some, arith, Option-cases, inl, inr,
}
use msys_core.Common.Int.{ℤ, pos_part}
use msys_core.Common.Text.{Text, codes}
use msys_core.Manifest.Types.{component_key}
use msys_core.Supervisor.Forward.{
  max_forward_timeout_ms, default_timeout_ms, deadline_of, forwarded_timeout, Forwarded, Forwarding,
  forwarded, Failure, Sending, taken, refused, Answer, is_reachable, forward_call,
}
use msys_core.Supervisor.Forward.Reported.{Reports, Answers}
use msys_core.Supervisor.Idle.{Idle, begin_forward_call}
use msys_core.Supervisor.Responses.{field_is, expired_before_provider_delivery, no_provider_socket}
use msys_core.Value.{Value, Fields, int, get_field, get_or, null, dict, end}

-- A call waits for five minutes at most, and not after its deadline; without a deadline for five
-- seconds.
pub forwarded_timeout_lem :
    (round_float : Value → ℤ) (now : ℕ) (message : Fields)
    → (forwarded_timeout round_float now message ≤ max_forward_timeout_ms)
      × ((deadline_of round_float message ≡ none)
            × (forwarded_timeout round_float now message ≡ default_timeout_ms)
          ⊎ ((deadline : ℤ) × (deadline_of round_float message ≡ some deadline)
              × (forwarded_timeout round_float now message ≤ pos_part deadline - now)))
unfolding forwarded_timeout
forwarded_timeout_lem round_float now message =
    elim (Option-cases (deadline_of round_float message)) [
      | inl n ↦ (ground (arith, n), inl (n, ground (arith, n)))
      | inr (d, e) ↦ (ground (arith, e), inr (d, e, ground (arith, e)))
    ]

module _ (round_float : Value → ℤ) (send : Forwarded → Sending)
    (wait : Forwarded → ℕ → Idle → Answer × Idle) (now : ℕ) (id : Option ℤ) (source : Text)
    (message : Fields) (next_request_id : ℕ) (s : Idle) where
  abbrev pub forwarding : Forwarding
  forwarding = forward_call round_float send wait now id source message next_request_id s

  abbrev key : Text
  key = component_key s.instance_of.component

  abbrev pub frame : Forwarded
  frame = forwarded key next_request_id source message

  abbrev pub timeout : ℕ
  timeout = forwarded_timeout round_float now message

  abbrev pub deadline : Option ℤ
  deadline = deadline_of round_float message

  -- The message has a deadline, which is not ahead.
  abbrev IsLate : Type 0
  IsLate = (d : ℤ) × (deadline ≡ some d) × (pos_part d ≤ now)

  -- The message has no deadline, or has one that is ahead.
  abbrev IsInTime : Type 0
  IsInTime = (deadline ≡ none) ⊎ ((d : ℤ) × (deadline ≡ some d) × (suc now ≤ pos_part d))

  -- The instance is gone, and the error says so.
  abbrev pub Unreachable : Type 0
  Unreachable =
      (is_reachable s ≡ false)
      × (forwarding.sent ≡ none)
      × (r : Fields) × (forwarding.response ≡ some r)
      × (field_is (codes "code") no_provider_socket r ≡ true)

  -- The id of the message is no number: an exception leaves the method.
  abbrev pub Unreadable : Type 0
  Unreadable =
      (is_reachable s ≡ true)
      × (id ≡ none)
      × (forwarding.sent ≡ none)
      × (forwarding.response ≡ none)

  -- The deadline has passed, and the error says that nothing was sent.
  abbrev pub Expired : ℤ → Type 0
  Expired public_id =
      IsLate
      × (forwarding.sent ≡ none)
      × (r : Fields) × (forwarding.response ≡ some r)
      × (get_field (codes "id") r ≡ some (int public_id))
      × (expired_before_provider_delivery r ≡ true)

  -- The socket refuses the frame.
  abbrev pub Refused : ℤ → Type 0
  Refused public_id =
      IsInTime
      × (failure : Failure) × (send frame ≡ refused failure)
      × (forwarding.sent ≡ none)
      × Reports public_id key failure forwarding.response

  -- A frame names the instance, the call and who makes it.
  abbrev IsFrame : Forwarded → Type 0
  IsFrame f =
      (f.id ≡ next_request_id)
      × (f.target ≡ key)
      × (f.source ≡ source)
      × (f.method ≡ get_or (codes "method") null message)
      × (f.payload ≡ get_or (codes "payload") (dict end) message)
      × (f.deadline ≡ get_field (codes "deadline_ms") message)

  -- The socket takes the frame, and the response is what comes of waiting.
  abbrev pub Delivered : ℤ → Type 0
  Delivered public_id =
      IsInTime
      × (send frame ≡ taken)
      × (forwarding.sent ≡ some frame)
      × IsFrame frame
      × Answers public_id key (wait frame timeout (begin_forward_call s)).0 forwarding.response
