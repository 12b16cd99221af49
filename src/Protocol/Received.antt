-- ===== src/Protocol/Received.antt =====
-- Which packets are received, and as which message.
use msys_core.Common.{◌≤◌, ◌≡◌, some, length}
use msys_core.Common.Text.{Text, codes}
use msys_core.Protocol.{Json, loaded, Bytes}
use msys_core.Value.{Value, str, dict, Fields, get_field}

-- A string under "type".
abbrev pub Typed : Fields → Type 0
Typed message = (t : Text) × (get_field (codes "type") message ≡ some (str t))

module _ (json : Json) where
  abbrev pub Decodes : Bytes → Fields → Type 0
  Decodes bytes message =
      (length bytes ≤ 262144) × (json.loads bytes ≡ loaded (dict message)) × Typed message
