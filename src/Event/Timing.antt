-- ===== src/Event/Timing.antt =====
-- src/native/native_promise.c and src/runtime/vm_event.c: the timers: a timer scheduled, cleared, taken to fire
-- and armed again. The time at which a timer is due, a sum of doubles, is an argument.
use cscript.Prelude.{
  ℕ, zero, suc, ◌^◌, Bool, false, not, ◌&&◌, ◌||◌, List, [], ◌∷◌, length, get_or, ltb, ◌==◌,
  if◌then◌else◌, Option, none, some,
}
use cscript.Value.{Value, undefined, number}
use cscript.Event.{Timer, Timers}

-- `CS_TIMERS_MAX`
abbrev pub timers_max : ℕ
timers_max = 1024

-- The bit patterns of infinity, of -0 and of 1.
abbrev infinity : ℕ
infinity = 9218868437227405312

abbrev negative_zero : ℕ
negative_zero = 2 ^ 63

abbrev one : ℕ
one = 4607182418800017408

-- `delay < 0 || delay != delay`: what is above infinity is a NaN or has the sign.
abbrev pub delay_of : ℕ → ℕ
delay_of bits = if bits == negative_zero then bits else if ltb infinity bits then 0 else bits

-- `delay > 1 ? delay : 1`, of a delay that is a number, where -0 is not above 1.
abbrev pub interval_of : ℕ → ℕ
interval_of delay = if ltb one delay && not (delay == negative_zero) then delay else one

-- The test of the loop that makes room: the timer at hand is to come after the new one.
abbrev pub is_after : Timer → Timer → Bool
is_after old new = ltb new.due old.due || old.due == new.due && ltb new.sequence old.sequence

abbrev pub no_timer : Timer
no_timer = record {
  due = 0;
  sequence = 0;
  id = 0;
  callback = undefined;
  cancelled = false;
  repeat = 0;
}

-- The loop that finds the place of a new timer, from the end of the array.
unfoldable pub seat : Timer → List Timer → ℕ → ℕ
seat new entries zero = 0
seat new entries (suc at) =
    let rest = seat new entries at in
    if is_after (get_or entries at no_timer) new then rest else suc at

-- What the loop has moved up, with the timer in its place.
unfoldable pub insert_at : ℕ → Timer → List Timer → List Timer
insert_at zero new entries = new ∷ entries
insert_at (suc at) new [] = new ∷ []
insert_at (suc at) new (t ∷ entries) = t ∷ insert_at at new entries

abbrev pub insert : Timer → List Timer → List Timer
insert new entries = insert_at (seat new entries (length entries)) new entries

abbrev pub delay_argument : List Value → ℕ
delay_argument (callback ∷ number bits ∷ rest) = delay_of bits
delay_argument args = 0

abbrev pub with_timer : Timer → Timers → Timers
with_timer new ts = record ts {
  entries = insert new ts.entries;
  next_sequence = suc ts.next_sequence;
  next_id = suc ts.next_id;
}

-- `scheduleTimer`, with the sum of doubles and the reading of the clock; `none` is an error reported.
unfoldable pub schedule : (ℕ → ℕ → ℕ) → ℕ → Bool → List Value → Timers → Option (Timers × ℕ)
schedule add now repeating [] ts = none
schedule add now repeating (callback ∷ args) ts =
    let delay = delay_argument (callback ∷ args) in
    if length ts.entries == timers_max
    then none
    else some (
      with_timer
          (record {
            due = add now delay;
            sequence = ts.next_sequence;
            id = ts.next_id;
            callback = callback;
            cancelled = false;
            repeat = if repeating then interval_of delay else 0;
          })
          ts,
      ts.next_id,
    )

unfoldable pub remove : ℕ → List Timer → List Timer
remove id [] = []
remove id (t ∷ entries) = let rest = remove id entries in if t.id == id then entries else t ∷ rest

abbrev pub is_firing : ℕ → Option ℕ → Bool
is_firing id none = false
is_firing id (some firing) = id == firing

abbrev pub clear_id : Option ℕ → Timers → Timers
clear_id none ts = ts
clear_id (some id) ts = record ts {
  entries = remove id ts.entries;
  firing_cancelled = is_firing id ts.firing || ts.firing_cancelled;
}

-- `clearTimeoutNative`, with the conversion of a double to the `int` of a handle, which is none below
-- zero. An id of -1 would set a flag that is reset before it is read.
unfoldable pub clear : (ℕ → Option ℕ) → List Value → Timers → Timers
clear to_int (number bits ∷ args) ts = clear_id (to_int bits) ts
clear to_int args ts = ts

-- A timer is taken off the queue before its callback runs.
abbrev pub take_first : Timer → List Timer → Timers → Timers
take_first t rest ts = record ts { entries = rest; firing = some t.id; firing_cancelled = false }

-- What follows a callback: the timer that fired is armed again if it is an interval that was not stopped.
unfoldable pub rearm : (ℕ → ℕ → ℕ) → ℕ → Timer → Timers → Timers
rearm add now t ts =
    let idle : Timers = record ts { firing = none; firing_cancelled = false } in
    if ltb 0 t.repeat && (not ts.firing_cancelled && ltb (length ts.entries) timers_max)
    then record idle {
      entries =
          insert (record t { due = add now t.repeat; sequence = ts.next_sequence }) ts.entries;
      next_sequence = suc ts.next_sequence;
    }
    else idle
