-- ===== src/Reasons.antt =====
-- Reasons for a stop, src/stopped_reasons.hh and src/stopped_reasons.cc.
-- The error codes are those of GStreamer's headers; a C enumeration may hold other values too,
-- which the switches leave like the cases that `break`, so `other` stands for those. The error
-- domains are quarks, pairwise different. MSG_BUG writes to the log.
pub mod Mapping
use Prim.Native.String.{String}
use streamplayer.Base.{ℕ, Bool, if◌then◌else◌}

pub data Reason : Type 0 where
  unknown queue_empty already_stopped physical_media_io net_io url_missing : Reason
  protocol authentication does_not_exist wrong_type permission_denied : Reason
  missing_codec wrong_stream_format broken_stream encrypted : Reason
  decryption_not_supported : Reason

unfoldable pub as_string : Reason → String
as_string unknown = "flow.unknown"
as_string queue_empty = "flow.nourl"
as_string already_stopped = "flow.stopped"
as_string physical_media_io = "io.media"
as_string net_io = "io.net"
as_string url_missing = "io.nourl"
as_string protocol = "io.protocol"
as_string authentication = "io.auth"
as_string does_not_exist = "io.unavailable"
as_string wrong_type = "io.type"
as_string permission_denied = "io.denied"
as_string missing_codec = "data.codec"
as_string wrong_stream_format = "data.format"
as_string broken_stream = "data.broken"
as_string encrypted = "data.encrypted"
as_string decryption_not_supported = "data.nodecrypter"

pub data CoreError : Type 0 where
  failed too_lazy not_implemented state_change pad thread negotiation event seek caps tag :
      CoreError
  missing_plugin clock disabled num_errors : CoreError
  other : ℕ → CoreError

pub data ResourceError : Type 0 where
  failed too_lazy not_found busy open_read open_write open_read_write close : ResourceError
  read write seek sync settings no_space_left not_authorized num_errors : ResourceError
  other : ℕ → ResourceError

pub data StreamError : Type 0 where
  failed too_lazy not_implemented type_not_found wrong_type codec_not_found decode : StreamError
  encode demux mux format decrypt decrypt_nokey num_errors : StreamError
  other : ℕ → StreamError

-- A `GError`, by its domain.
pub data GError : Type 0 where
  core : CoreError → GError
  library : ℕ → GError
  resource : ResourceError → GError
  stream : StreamError → GError
  foreign : ℕ → GError

core_error_to_reason : CoreError → Reason
core_error_to_reason missing_plugin = missing_codec
core_error_to_reason disabled = missing_codec
core_error_to_reason _ = unknown

library_error_to_reason : ℕ → Reason
library_error_to_reason code = unknown

resource_error_to_reason : ResourceError → Bool → Reason
resource_error_to_reason not_found is_local_error = does_not_exist
resource_error_to_reason open_read is_local_error =
    if is_local_error then physical_media_io else net_io
resource_error_to_reason read is_local_error = protocol
resource_error_to_reason ResourceError.seek is_local_error = protocol
resource_error_to_reason not_authorized is_local_error = permission_denied
resource_error_to_reason _ is_local_error = unknown

stream_error_to_reason : StreamError → Reason
stream_error_to_reason StreamError.failed = protocol
stream_error_to_reason type_not_found = Reason.wrong_type
stream_error_to_reason StreamError.wrong_type = Reason.wrong_type
stream_error_to_reason codec_not_found = missing_codec
stream_error_to_reason decode = broken_stream
stream_error_to_reason demux = broken_stream
stream_error_to_reason format = wrong_stream_format
stream_error_to_reason decrypt = decryption_not_supported
stream_error_to_reason decrypt_nokey = encrypted
stream_error_to_reason _ = unknown

unfoldable pub from_gerror : GError → Bool → Reason
unfolding core_error_to_reason library_error_to_reason resource_error_to_reason
    stream_error_to_reason
from_gerror (core code) is_local_error = core_error_to_reason code
from_gerror (library code) is_local_error = library_error_to_reason code
from_gerror (resource code) is_local_error = resource_error_to_reason code is_local_error
from_gerror (stream code) is_local_error = stream_error_to_reason code
from_gerror (foreign domain) is_local_error = unknown
