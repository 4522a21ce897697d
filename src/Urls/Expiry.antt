-- ===== src/Urls/Expiry.antt =====
-- Resolved links and their expiry.
use Prim.Native.String.{String}
use streamplayer.Base.{ℕ, ◌+◌, ◌≤◌, ◌≡◌, ◌↔◌, true, false, arith}
use streamplayer.UsbUrl.{is_blank}
use streamplayer.Urls.{Url, link, get_stream_uri, set_resolved_uri, clear_expired_uri}

-- A link that has been resolved gives the resolved URI, and is cleared exactly at or after the end
-- of its validity; a cleared link is the link as it was pushed. One whose resolved URI is empty is
-- never cleared. A URL that is no link is changed by neither call.
pub resolved_then_cleared :
    (original uri : String) (valid now later : ℕ) (u : Url)
    → let r = set_resolved_uri uri valid now (link original) in
      (get_stream_uri r ≡ (uri, true))
      × (((clear_expired_uri later r).1 ≡ true) ↔ ((is_blank uri ≡ false) × (now + valid ≤ later)))
      × (((clear_expired_uri later r).1 ≡ true) → (clear_expired_uri later r).0 ≡ link original)
      × (((clear_expired_uri later r).1 ≡ false) → (clear_expired_uri later r).0 ≡ r)
      × ((u.is_airable_link ≡ false)
          → (set_resolved_uri uri valid now u ≡ u) × (clear_expired_uri later u ≡ (u, false)))
unfolding get_stream_uri set_resolved_uri clear_expired_uri
resolved_then_cleared original uri valid now later u = ground arith
