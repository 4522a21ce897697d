-- ===== src/BoostedThreads/Status.antt =====
-- What the pipeline tells of its threads, task_name_to_priority(), determine_thread_name() and
-- bus_sync_message_handler() of src/streamer.cc, with the ends of boost() and of throttle() that the
-- player calls. A thread tells its own status, so that its ID comes with the message. The answer of the
-- handler, which is always to pass the message on, and the thread observer are left out.
pub mod Leaving
use Prim.Native.String.{String}
use text.Mathlib.Text.{starts_with, ◌==◌ as str_eq}
use streamplayer.Base.{ℕ, Bool, true, false, Option, none, some, List, [], ◌∷◌, if◌then◌else◌}
use streamplayer.BoostedThreads.{
  Priority, highest, high, moderate, no_priority, Sched, Threads, boost, throttle, add_self,
  remove_self,
}

unfoldable pub task_name_to_priority : String → Priority
task_name_to_priority name =
    if starts_with name "dmultiqueue"
    then high
    else (if str_eq name "aqueue:src"
        then highest
        else (if str_eq name "audiosink-actual-sink-alsa" then highest else no_priority))

pub data StatusType : Type 0 where
  create enter leave destroy start pause stop : StatusType

-- The object of a stream status: a task that may have a name, a thread of GLib, or anything else.
pub data StatusObject : Type 0 where
  task : Option String → StatusObject
  g_thread other_object : StatusObject

-- A stream status has its object, its type and the name of the element that owns the thread.
pub data BusMessage : Type 0 where
  stream_status : StatusObject → StatusType → Option String → BusMessage
  other_message : BusMessage

-- Any other object has no name here: its message is passed on as one without a name is.
unfoldable pub determine_thread_name : StatusObject → Option String → Option String
determine_thread_name (task name) owner = name
determine_thread_name g_thread owner = owner
determine_thread_name other_object owner = none

pub data Event : Type 0 where
  boosts throttles : Event
  receives : ℕ → BusMessage → Event

module _ (accepts : ℕ → Sched → Bool) where
  unfoldable pub add_or_remove : ℕ → Bool → Priority → Threads × (ℕ → Sched) → Threads × (ℕ → Sched)
  add_or_remove tid entering no_priority x = x
  add_or_remove tid entering highest x =
      if entering then add_self accepts tid highest x else remove_self accepts tid x
  add_or_remove tid entering high x =
      if entering then add_self accepts tid high x else remove_self accepts tid x
  add_or_remove tid entering moderate x =
      if entering then add_self accepts tid moderate x else remove_self accepts tid x

  unfoldable pub thread_moves :
      ℕ → Bool → Option String → Threads × (ℕ → Sched) → Threads × (ℕ → Sched)
  thread_moves tid entering none x = x
  thread_moves tid entering (some name) x =
      add_or_remove tid entering (task_name_to_priority name) x

  unfoldable pub bus_sync_message_handler :
      ℕ → BusMessage → Threads × (ℕ → Sched) → Threads × (ℕ → Sched)
  bus_sync_message_handler tid other_message x = x
  bus_sync_message_handler tid (stream_status object enter owner) x =
      thread_moves tid true (determine_thread_name object owner) x
  bus_sync_message_handler tid (stream_status object leave owner) x =
      thread_moves tid false (determine_thread_name object owner) x
  bus_sync_message_handler tid (stream_status object create owner) x = x
  bus_sync_message_handler tid (stream_status object destroy owner) x = x
  bus_sync_message_handler tid (stream_status object start owner) x = x
  bus_sync_message_handler tid (stream_status object pause owner) x = x
  bus_sync_message_handler tid (stream_status object stop owner) x = x

  unfoldable pub handle : Event → Threads × (ℕ → Sched) → Threads × (ℕ → Sched)
  handle boosts x = boost accepts x
  handle throttles x = throttle accepts x
  handle (receives tid m) x = bus_sync_message_handler tid m x

  unfoldable pub run : List Event → Threads × (ℕ → Sched) → Threads × (ℕ → Sched)
  unfolding handle
  run [] x = x
  run (e ∷ es) x = run es (handle e x)
