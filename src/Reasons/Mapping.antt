-- ===== src/Reasons/Mapping.antt =====
-- Which reasons the errors are mapped to, and that a reason can be told from its string.
use Prim.Native.String.{String}
use text.Mathlib.Text.{◌==◌ as str_eq}
use streamplayer.Base.{
  ◌≡◌, ◌≢◌, refl, ap, sym, ◌∙◌, ◌↔◌, Bool, true, false, Option, none, some, arith, if◌then◌else◌,
}
use streamplayer.Reasons.{
  Reason, unknown, queue_empty, already_stopped, physical_media_io, net_io, url_missing, protocol,
  authentication, does_not_exist, wrong_type, permission_denied, missing_codec, wrong_stream_format,
  broken_stream, encrypted, decryption_not_supported, as_string, open_read, GError, resource,
  from_gerror,
}

-- How a receiver of a stop signal reads the reason.
parse : String → Option Reason
parse s =
    if str_eq s "flow.unknown"
    then some unknown
    else if str_eq s "flow.nourl"
    then some queue_empty
    else if str_eq s "flow.stopped"
    then some already_stopped
    else if str_eq s "io.media"
    then some physical_media_io
    else if str_eq s "io.net"
    then some net_io
    else if str_eq s "io.nourl"
    then some url_missing
    else if str_eq s "io.protocol"
    then some protocol
    else if str_eq s "io.auth"
    then some authentication
    else if str_eq s "io.unavailable"
    then some does_not_exist
    else if str_eq s "io.type"
    then some wrong_type
    else if str_eq s "io.denied"
    then some permission_denied
    else if str_eq s "data.codec"
    then some missing_codec
    else if str_eq s "data.format"
    then some wrong_stream_format
    else if str_eq s "data.broken"
    then some broken_stream
    else if str_eq s "data.encrypted"
    then some encrypted
    else if str_eq s "data.nodecrypter"
    then some decryption_not_supported
    else none

parse-as_string : (r : Reason) → parse (as_string r) ≡ some r
unfolding parse as_string
parse-as_string unknown = refl
parse-as_string _ = refl

-- No two reasons have the same string.
pub as_string_injective : (r s : Reason) → as_string r ≡ as_string s → r ≡ s
as_string_injective r s e = cc (sym (parse-as_string r) ∙ ap parse e ∙ parse-as_string s)

-- An error is reported as an I/O error of a medium exactly if it is the failure to open a resource
-- for reading and the stream is local, and as an I/O error of the network exactly if it is that
-- failure and the stream is not local; no error is reported as a state of the player (empty queue,
-- already stopped), as a missing URL or as a failed authentication; and no other error depends on
-- where the stream comes from.
pub from_gerror_lem :
    (e : GError) (is_local : Bool)
    → ((from_gerror e is_local ≡ physical_media_io)
        ↔ ((e ≡ resource open_read) × (is_local ≡ true)))
      × ((from_gerror e is_local ≡ net_io) ↔ ((e ≡ resource open_read) × (is_local ≡ false)))
      × (from_gerror e is_local ≢ queue_empty)
      × (from_gerror e is_local ≢ already_stopped)
      × (from_gerror e is_local ≢ url_missing)
      × (from_gerror e is_local ≢ authentication)
      × ((e ≢ resource open_read) → from_gerror e true ≡ from_gerror e false)
unfolding from_gerror
from_gerror_lem e is_local = ground arith
