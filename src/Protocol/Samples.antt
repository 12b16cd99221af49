-- ===== src/Protocol/Samples.antt =====
-- Packets, with a `json` that knows a few texts.
use msys_core.Common.{◌≡◌, refl, Option, none, some, if◌then◌else◌}
use msys_core.Common.Int.{pos}
use msys_core.Common.Result.{ok, err}
use msys_core.Common.Text.{codes, text_beq}
use msys_core.Protocol.{
  Json, Bytes, Loaded, loaded, malformed, protocol, uncaught, invalid_packet, not_an_object,
  no_string_type, encode, decode, recv_packet, check_message,
}
use msys_core.Value.{Value, Fields, dict, str, int, list, nil, field, end, get_field}

program : Unit {0}
unfolding encode decode recv_packet check_message
program = tt

abbrev ping : Fields
ping = field (str (codes "type")) (str (codes "ping")) end

abbrev untyped : Fields
untyped = field (str (codes "type")) (int (pos 7)) end

abbrev ping_bytes : Bytes
ping_bytes = codes "{\"type\":\"ping\"}"

abbrev untyped_bytes : Bytes
untyped_bytes = codes "{\"type\":7}"

abbrev write : Option Value → Option Bytes
write (some (str t)) = if text_beq t (codes "ping") then some ping_bytes else none
write (some (int n)) = some untyped_bytes
write _ = none

abbrev read : Bytes → Loaded
read bytes =
    if text_beq bytes ping_bytes
    then loaded (dict ping)
    else if text_beq bytes untyped_bytes
    then loaded (dict untyped)
    else if text_beq bytes (codes "[]")
    then loaded (list nil)
    else malformed

abbrev json : Json
json = record { dumps = λ message. write (get_field (codes "type") message); loads = read }

-- A message is received as it was sent; one without a string type can be sent and is refused.
sends :
    (encode json ping ≡ ok ping_bytes)
    × (recv_packet json (some ping_bytes) ≡ ok (some ping))
    × (encode json untyped ≡ ok untyped_bytes)
    × (recv_packet json (some untyped_bytes) ≡ err (protocol no_string_type))
    × (recv_packet json (some (codes "[]")) ≡ err (protocol not_an_object))
    × (recv_packet json (some (codes "{")) ≡ err (protocol invalid_packet))
    × (encode json end ≡ err uncaught)
unfolding program
sends = (refl, refl, refl, refl, refl, refl, refl)
