-- ===== src/Roles/Runs.antt =====
-- Sequences of the calls that change a registry, and the tokens that they grant.
use msys_core.Common.{ℕ, Option, List, [], ◌∷◌, ◌++◌}
use msys_core.Common.Result.{Result, ok, err}
use msys_core.Common.Text.{Text}
use msys_core.Roles.Types.{RoleError, RoleLease, RoleRegistry}
use msys_core.Roles.Registry.{select_preferred, reset_preferred}
use msys_core.Roles.Leases.{LeaseRef, acquire, release, release_provider}

-- The calls that change a registry.
pub data Call : Type 0 where
  select_call : Text → Text → Call
  reset_call : Text → Call
  acquire_call : Text → Option Text → Option Text → Call
  release_call : LeaseRef → Call
  stop_call : Text → Call

-- The registry after a call, whether it returned or raised.
unfoldable pub after : RoleRegistry → Call → RoleRegistry
after reg (select_call role provider_id) = (select_preferred reg role provider_id).1
after reg (reset_call role) = (reset_preferred reg role).1
after reg (acquire_call role provider_id holder) = (acquire reg role provider_id holder).1
after reg (release_call ref) = (release reg ref).1
after reg (stop_call provider_id) = (release_provider reg provider_id).1

unfoldable pub run : RoleRegistry → List Call → RoleRegistry
run reg [] = reg
run reg (c ∷ cs) = run (after reg c) cs

abbrev pub token_of : Result RoleError RoleLease → List ℕ
token_of (ok lease) = lease.token ∷ []
token_of (err e) = []

-- The token of the lease that a call returns, if it is an `acquire` that succeeds.
unfoldable pub granted_by : RoleRegistry → Call → List ℕ
granted_by reg (acquire_call role provider_id holder) =
    token_of (acquire reg role provider_id holder).0
granted_by reg _ = []

-- The tokens of all the leases that a sequence of calls returns, in the order of the calls.
unfoldable pub granted : RoleRegistry → List Call → List ℕ
granted reg [] = []
granted reg (c ∷ cs) = granted_by reg c ++ granted (after reg c) cs
