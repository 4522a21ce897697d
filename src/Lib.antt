-- ===== src/Lib.antt =====
-- Streamplayer: a player of audio streams that is controlled over D-Bus and plays through GStreamer.
--
-- The program takes items from a queue, plays each through a pipeline, and announces what it does.
-- An item holds alternative URLs, some of which are links that a list broker has to resolve; links to
-- USB devices are translated by the mount table; an answer of the broker comes at once or later,
-- under a cookie. The parts modelled here and the files that model them:
--   Queue        src/urlfifo.hh: the queue. `push`, `clear`, `clear_while`, `pop`, `pop_drop`,
--                `peek` and the others are the methods of PlayQueue::Queue by their names;
--                Queue.History runs any sequence of them and keeps what was accepted and handed out.
--   Urls         src/url_collection.hh, src/url_collection.cc, src/strbo_url.cc: the URLs of a
--                stream, the expiry of resolved links, the selected URL, the type of a stream.
--   UsbUrl       src/strbo_usb_url.cc: the translation of links to USB devices.
--   Item         src/playitem.hh, src/playitem.cc: PlayQueue::Item over the two before.
--   Reasons      src/stopped_reasons.hh, src/stopped_reasons.cc: why the player has stopped.
--   Buffering    src/buffering.hh: Buffering::Data, the state machine of a wait for data.
--   Rnf          src/rnfcall_state.hh, src/rnfcall.hh, src/rnfcall.cc: a call by request,
--                notification and fetch. Each function is one critical section; Rnf.Steps runs any
--                sequence of them, by any threads.
--   Cookies      src/cookie_manager.hh, src/cookie_manager_impl.cc: the cookies that wait for the
--                broker, and the handlers of its signals.
--   CookieCall   src/rnfcall_cookiecall.hh: a call whose cookie is managed, over Rnf and Cookies.
--   BoostedThreads  src/boosted_threads.hh, src/boosted_threads.cc: the threads whose priority is raised;
--                BoostedThreads.Status the pipeline's messages on its threads (src/streamer.cc).
--   MetaData     src/streamer.cc (ThrottledMetaDataUpdate): how often changed tags are emitted.
--   Player       src/streamer.cc: the player over an abstract pipeline. Player is the state and the
--                recovery from errors; Player.Take chooses the next item; Player.Play gives a stream to
--                the pipeline; Player.Requests holds start, stop, pause, push, clear, about-to-finish and
--                the end of a stream; Player.Next the skip to the next stream; Player.Resolved the end of
--                a call that resolves a link; Player.Activation the start of a stream; Player.StateChange
--                the changes of the pipeline's state; Player.Filling the buffering messages;
--                Player.ErrorMessage the errors and the retries; Player.Seeking seeks, the preroll and the
--                clock; Player.Progress the positions; Player.Service activation and the removal of
--                devices. Player.Events runs any sequence of requests, messages, timers and ended
--                calls. Functions bear their names.
--   DBus         src/dbus.cc: the methods that clients call, over Player and Player.Service.
--   StreamLogging  src/stream_logging.cc: the names of a stream that are logged.
--   Base         names and lemmas the others share.
-- Each part's tests and the concrete instances of its theorems are in its module Tests; those of the
-- player's messages are in Player.EventTests and Player.ErrorTests.
--
-- Conventions: state is a record that a method takes and returns; a null pointer or an exception that
-- leaves a function is `none`, unless the file says otherwise; sizes and times are natural numbers,
-- which do not wrap around, but for positions that are sought, which do where the code lets them (no
-- other computation here comes near 2 ^ 64, and deadlines are assumed not to).
-- No definition uses fuel: loops are structural. The lock of an object is held over each function, so
-- an interleaving of threads is a sequence of functions.
--
-- Outside the model: the operating system and GStreamer's URI functions, which are the fields of a
-- host or parameters; what the pipeline and the broker answer, which comes with each event or is a
-- parameter of a call; logging, but for those names; the injection of failures
-- (Streamer::inject_stream_failure()); the tags and the cover art of streams (src/streamdata.hh);
-- setup and shutdown of the pipeline; connecting to the bus; the call on the bus behind
-- src/rnfcall_resolve_airable_redirect.hh; and the start of the program (src/streamplayer.cc). Their
-- code only calls libraries, or keeps nothing that the modelled parts read.
pub mod Base
pub mod Queue
pub mod Buffering
pub mod Reasons
pub mod UsbUrl
pub mod Urls
pub mod Item
pub mod Rnf
pub mod Cookies
pub mod CookieCall
pub mod BoostedThreads
pub mod Player
pub mod MetaData
pub mod DBus
pub mod StreamLogging
