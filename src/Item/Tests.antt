-- ===== src/Item/Tests.antt =====
-- Items at concrete streams.
use streamplayer.Base.{ℕ, ◌+◌, ◌*◌, ◌≤◌, true, false, none, List, [], ◌∷◌, length}
use streamplayer.Reasons.{unknown, net_io, protocol}
use streamplayer.Urls.{link, StreamUrls, generic_network}
use streamplayer.Item.{Item, in_queue, not_failed}
use streamplayer.Item.Retry.{retries, retries_bounded}
use streamplayer.Item.Failure.{Call, fails, prefails, Told, told}

abbrev two : StreamUrls
two = record { urls = link "airable://a" ∷ link "airable://b" ∷ []; selected_url = 0 }

abbrev item : Item
item = record {
  state = in_queue;
  fail_state = not_failed;
  prefail_reason = unknown;
  stream_id = 4097;
  stream_urls = two;
  resolver = none;
  pipeline_start_required_after_resolve = false;
  enable_realtime_processing = true;
  stream_type = generic_network;
}

abbrev times : List ℕ
times = 1 ∷ 2 ∷ 3 ∷ []

abbrev some_calls : List Call
some_calls = prefails net_io ∷ fails ∷ prefails protocol ∷ fails ∷ []

retries_bounded_example : retries times item ≤ 2 * length item.stream_urls.urls + 1
retries_bounded_example = retries_bounded times item

told_example : Told some_calls item
told_example = told some_calls item
