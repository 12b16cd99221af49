-- ===== src/Protocol.antt =====
-- msys_core/protocol.py: the packets of mIPC. Python's `json` is a parameter: `dumps` writes an
-- object as bytes, `loads` reads bytes as UTF-8 and JSON, or fails. A socket is the bytes that it
-- delivers.
pub mod Received
mod Samples
use msys_core.Common.{
  ℕ, ◌*◌, Bool, true, false, not, Option, none, some, List, [], ◌∷◌, ltb, length, if◌then◌else◌,
}
use msys_core.Common.Result.{Result, ok, err, ◌>>=◌}
use msys_core.Common.Text.{Text, codes}
use msys_core.Value.{Value, str, dict, Fields, field, end, get_field}

pub data ProtocolError : Type 0 where
  too_large invalid_packet not_an_object no_string_type : ProtocolError

-- A `ProtocolError`, or an exception of `json` that is not caught.
pub data PacketError : Type 0 where
  protocol : ProtocolError → PacketError
  uncaught : PacketError

abbrev pub max_packet : ℕ
max_packet = 256 * 1024

abbrev pub Bytes : Type 0
Bytes = List ℕ

-- What `json.loads(data.decode("utf-8"))` does: it returns a value, or raises a `UnicodeDecodeError`
-- or a `JSONDecodeError`, or another exception, as for a nesting that is too deep.
pub data Loaded : Type 0 where
  loaded : Value → Loaded
  malformed : Loaded
  failed : Loaded

-- `dumps` writes a message as UTF-8 bytes, or raises.
pub record Json : Type 0 where
  pub dumps : Fields → Option Bytes
  pub loads : Bytes → Loaded

abbrev pub is_string : Option Value → Bool
is_string (some (str t)) = true
is_string _ = false

-- The checks of `decode` on the value that was read.
unfoldable pub check_message : Value → Result PacketError Fields
check_message (dict fs) =
    if not (is_string (get_field (codes "type") fs)) then err (protocol no_string_type) else ok fs
check_message _ = err (protocol not_an_object)

abbrev pub eof : Fields
eof = field (str (codes "type")) (str (codes "eof")) end

module _ (json : Json) where
  unfoldable pub encode : Fields → Result PacketError Bytes
  encode message = elim (json.dumps message) [
    | none ↦ err uncaught
    | some bytes ↦ if ltb max_packet (length bytes) then err (protocol too_large) else ok bytes
  ]

  unfoldable pub decode : Bytes → Result PacketError Fields
  unfolding check_message
  decode bytes =
      if ltb max_packet (length bytes) then err (protocol too_large) else elim (json.loads bytes) [
        | malformed ↦ err (protocol invalid_packet)
        | failed ↦ err uncaught
        | loaded value ↦ check_message value
      ]

  -- `recv_packet`: no bytes at hand, the end of the stream, or a packet.
  unfoldable pub recv_packet : Option Bytes → Result PacketError (Option Fields)
  unfolding decode
  recv_packet none = ok none
  recv_packet (some []) = ok (some eof)
  recv_packet (some (b ∷ bytes)) = do message ← decode (b ∷ bytes); ok (some message)
