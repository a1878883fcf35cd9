-- ===== src/Windows/Service/Protocol.antt =====
-- src/windows-service-entry.ts: starts, stops and deadlines of the entry.
use agentv.Base.{
  ℕ, zero, suc, ◌+◌, ◌≡◌, refl, inl, inr, String, List, [], ◌∷◌, ◌++◌, Bool, true, false, not, ◌&&◌,
  ◌||◌, Option, none, some, if◌then◌else◌, arith, length, length-append, ltb, Bool-cases,
  Option-cases,
}
use agentv.Windows.Service.{
  Codec, Launch, Command, start_command, stop_command, ServiceEntry, start, Stopping, not_stopping,
  Timer, start_deadline, startup_deadline, create, bounded_stop, request_stop, fail, on_command,
  cut_line, line_limit, next_line, consume, input_limit, on_data, on_end, on_timer, on_started,
  on_start_failed, on_stopped, Event, input_data, input_end, input_error, timer_fired, started,
  start_failed, stop_settled, handle_event, finish, step, run, is_waiting,
}

abbrev pub is_done : ServiceEntry → Bool
is_done e = elim e.done [ none ↦ false | some _ ↦ true ]

abbrev is_stopping : Stopping → Bool
is_stopping not_stopping = false
is_stopping _ = true

abbrev is_start_deadline : Timer → Bool
is_start_deadline start_deadline = true
is_start_deadline _ = false

abbrev is_startup_deadline : Timer → Bool
is_startup_deadline startup_deadline = true
is_startup_deadline _ = false

-- An entry that has not settled waits for START or for the runtime, each with a deadline, or has a
-- runtime that nobody told to stop, or waits with a deadline for it to stop.
abbrev pub is_bounded : ServiceEntry → Bool
is_bounded e =
    is_done e
    || (if e.handle
        then not e.stop_requested || is_waiting e.stopping
        else if e.started
        then is_startup_deadline e.start_timer
        else is_start_deadline e.start_timer)

abbrev implies : Bool → Bool → Bool
implies a b = not a || b

-- `start` was called as often as START was accepted, and a runtime that came is stopped if that was asked
-- for, or if the entry has settled.
pub record IsEntry (e : ServiceEntry) : Type 0 where
  pub once : length e.starts ≡ (if e.started then 1 else 0)
  pub begun : implies (e.handle || e.starting) e.started ≡ true
  pub single : (e.handle && e.starting) ≡ false
  pub early : (is_start_deadline e.start_timer && e.started) ≡ false
  pub late : (is_startup_deadline e.start_timer && e.handle) ≡ false
  pub stops : implies (e.handle && (e.stop_requested || is_done e)) (is_stopping e.stopping) ≡ true
  pub stopping : implies (is_stopping e.stopping) (e.handle && e.stop_requested) ≡ true
  pub asked : implies (is_done e && (e.listening || e.starting)) e.stop_requested ≡ true
  pub bounded : is_bounded e ≡ true

fail-IsEntry : (e : ServiceEntry) → IsEntry e → IsEntry (fail e)
unfolding fail request_stop bounded_stop
fail-IsEntry e i = record {
  once = ground (arith, i.once);
  begun = ground (arith, i.begun);
  single = ground (arith, i.single);
  early = ground (arith, i.early);
  late = ground (arith, i.late);
  stops = ground (arith, i.stops);
  stopping = ground (arith, i.stopping);
  asked = ground (arith, i.asked);
  bounded = ground (arith, i.bounded);
}

request_stop-IsEntry : (e : ServiceEntry) → IsEntry e → IsEntry (request_stop e)
unfolding request_stop bounded_stop
request_stop-IsEntry e i = record {
  once = ground (arith, i.once);
  begun = ground (arith, i.begun);
  single = ground (arith, i.single);
  early = ground (arith, i.early);
  late = ground (arith, i.late);
  stops = ground (arith, i.stops);
  stopping = ground (arith, i.stopping);
  asked = ground (arith, i.asked);
  bounded = ground (arith, i.bounded, i.begun);
}

-- the buffer and the count of bytes do not matter
moved-IsEntry :
    (buffer : List ℕ) (n : ℕ) (e : ServiceEntry)
    → IsEntry e
    → IsEntry (record e { buffer = buffer; input_bytes = n })
moved-IsEntry buffer n e i = record {
  once = i.once;
  begun = i.begun;
  single = i.single;
  early = i.early;
  late = i.late;
  stops = i.stops;
  stopping = i.stopping;
  asked = i.asked;
  bounded = i.bounded;
}

start-IsEntry :
    (directory : String) (launch : Launch) (e : ServiceEntry)
    → e.listening ≡ true
    → (e.started || e.stop_requested) ≡ false
    → IsEntry e
    → IsEntry (start directory launch e)
start-IsEntry directory launch e open_input fresh i = record {
  once = ground (arith, i.once, length-append e.starts ((directory, launch) ∷ []));
  begun = ground (arith, i.begun);
  single = ground (arith, i.single, i.begun);
  early = refl;
  late = ground (arith, i.begun);
  stops = ground (arith, i.stops, i.begun);
  stopping = ground (arith, i.stopping);
  asked = ground (arith, i.asked);
  bounded = ground (arith, i.bounded, i.begun);
}

-- An entry whose input is listened to.
record IsListening (e : ServiceEntry) : Type 0 where
  entry : IsEntry e
  listening : e.listening ≡ true

on_command-IsListening :
    (command : Option Command) (e : ServiceEntry)
    → IsListening e
    → IsListening ((on_command command e).1)
unfolding on_command fail request_stop bounded_stop
on_command-IsListening none e i = record {
  entry = fail-IsEntry e i.entry;
  listening = ground (arith, i.listening);
}
on_command-IsListening (some stop_command) e i = record {
  entry = request_stop-IsEntry e i.entry;
  listening = ground (arith, i.listening);
}
on_command-IsListening (some (start_command directory launch)) e i =
    elim (Bool-cases (e.started || e.stop_requested)) [
      | inl late ↦
          rw late
            (record { entry = fail-IsEntry e i.entry; listening = ground (arith, i.listening) })
      | inr fresh ↦ rw fresh (record {
        entry = start-IsEntry directory launch e i.listening fresh i.entry;
        listening = i.listening;
      })
    ]

fail-IsListening : (e : ServiceEntry) → IsListening e → IsListening (fail e)
unfolding on_command
fail-IsListening e i = on_command-IsListening none e i

next_line-IsListening :
    (c : Codec) (e : ServiceEntry) → IsListening e → IsListening ((next_line c e).1)
unfolding next_line
next_line-IsListening c e i = elim (Option-cases (cut_line e.buffer)) [
  | inl open_line ↦ elim (Bool-cases (ltb line_limit (length e.buffer))) [
    | inl long ↦ rw (open_line, next_line, long) (fail-IsListening e i)
    | inr short ↦ rw (open_line, next_line, short) i
  ]
  | inr ((line, after), cut) ↦ elim (Bool-cases (ltb line_limit (length line))) [
    | inl long ↦ rw (cut, next_line, long) (fail-IsListening e i)
    | inr short ↦
        rw (cut, next_line, short)
          (on_command-IsListening _ _ (record {
            entry = moved-IsEntry after e.input_bytes e i.entry;
            listening = i.listening;
          }))
  ]
]

consume-IsListening :
    (c : Codec) (n : ℕ) (e : ServiceEntry) → IsListening e → IsListening (consume c n e)
unfolding consume
consume-IsListening c zero e i = i
consume-IsListening c (suc n) e i = elim (Bool-cases ((next_line c e).0)) [
  | inl more ↦ rw (consume, more) (consume-IsListening c n _ (next_line-IsListening c e i))
  | inr last ↦ rw (consume, last) (next_line-IsListening c e i)
]

on_data-IsListening :
    (c : Codec) (chunk : List ℕ) (e : ServiceEntry)
    → IsListening e
    → IsListening (on_data c chunk e)
unfolding on_data
on_data-IsListening c chunk e i =
    let bytes = e.input_bytes + length chunk in
    elim (Bool-cases (ltb input_limit bytes)) [
      | inl many ↦ rw many (
          fail-IsListening _
            (record { entry = moved-IsEntry e.buffer bytes e i.entry; listening = i.listening }))
      | inr few ↦ rw few (
          consume-IsListening c _ _ (record {
            entry = moved-IsEntry (e.buffer ++ chunk) bytes e i.entry;
            listening = i.listening;
          }))
    ]

finish-IsEntry : (e : ServiceEntry) → IsEntry e → IsEntry (finish e)
unfolding finish
finish-IsEntry e i = elim (Option-cases e.done) [
  | inl pending ↦ rw (pending, finish) i
  | inr (r, settled) ↦
      rw (settled, finish)
        (record {
          once = i.once;
          begun = i.begun;
          single = i.single;
          early = refl;
          late = refl;
          stops = i.stops;
          stopping = i.stopping;
          asked = ground (arith, i.asked, settled);
          bounded = ground (arith, settled);
        })
]

timer-IsEntry : (e : ServiceEntry) → IsEntry e → IsEntry (finish (on_timer e))
unfolding finish on_timer
timer-IsEntry e i = record {
  once = ground (arith, i.once);
  begun = ground (arith, i.begun);
  single = ground (arith, i.single);
  early = ground (arith, i.early);
  late = ground (arith, i.late);
  stops = ground (arith, i.stops, i.late, i.early, i.begun);
  stopping = ground (arith, i.stopping);
  asked = ground (arith, i.asked, i.early, i.begun);
  bounded = ground (arith, i.bounded);
}

on_started-IsEntry : (e : ServiceEntry) → e.starting ≡ true → IsEntry e → IsEntry (on_started e)
unfolding on_started bounded_stop
on_started-IsEntry e pending i = record {
  once = ground (arith, i.once);
  begun = ground (arith, i.begun);
  single = ground (arith, i.single);
  early = ground (arith, i.early);
  late = ground (arith, i.late);
  stops = ground (arith, i.stops, i.asked);
  stopping = ground (arith, i.stopping);
  asked = ground (arith, i.asked);
  bounded = ground (arith, i.bounded);
}

start_failed-IsEntry :
    (e : ServiceEntry) → e.starting ≡ true → IsEntry e → IsEntry (finish (on_start_failed e))
unfolding on_start_failed finish
start_failed-IsEntry e pending i = record {
  once = ground (arith, i.once);
  begun = ground (arith, i.begun);
  single = ground (arith, i.single);
  early = ground (arith, i.early);
  late = ground (arith, i.late);
  stops = ground (arith, i.stops, i.single);
  stopping = ground (arith, i.stopping);
  asked = ground (arith, i.asked);
  bounded = ground (arith, i.bounded);
}

on_end-IsEntry : (e : ServiceEntry) → IsEntry e → IsEntry (on_end e)
unfolding on_end
on_end-IsEntry e i = elim (Bool-cases (not e.started || ltb 0 (length e.buffer))) [
  | inl bad ↦ rw bad (fail-IsEntry e i)
  | inr fine ↦ rw fine (request_stop-IsEntry e i)
]

on_stopped-IsEntry :
    (fine : Bool) (e : ServiceEntry)
    → is_waiting e.stopping ≡ true
    → IsEntry e
    → IsEntry (on_stopped fine e)
unfolding on_stopped
on_stopped-IsEntry fine e pending i = record {
  once = ground (arith, i.once);
  begun = ground (arith, i.begun);
  single = ground (arith, i.single);
  early = ground (arith, i.early);
  late = ground (arith, i.late);
  stops = ground (arith, i.stops);
  stopping = ground (arith, i.stopping);
  asked = ground (arith, i.asked, i.stopping);
  bounded = ground (arith, i.bounded);
}

-- an event that counts only under a condition
guarded-IsEntry :
    (b : Bool) (d e : ServiceEntry)
    → (b ≡ true → IsEntry (finish d))
    → IsEntry e
    → IsEntry (finish (if b then d else e))
guarded-IsEntry true d e f i = f refl
guarded-IsEntry false d e f i = finish-IsEntry e i

handle_event-IsEntry :
    (c : Codec) (event : Event) (e : ServiceEntry)
    → IsEntry e
    → IsEntry (finish (handle_event c event e))
unfolding handle_event
handle_event-IsEntry c (input_data chunk) e i =
    guarded-IsEntry e.listening _ e
      (λ on.
        finish-IsEntry _
          (on_data-IsListening c chunk e (record { entry = i; listening = on })).entry)
      i
handle_event-IsEntry c input_end e i =
    guarded-IsEntry e.listening _ e (λ on. finish-IsEntry _ (on_end-IsEntry e i)) i
handle_event-IsEntry c input_error e i =
    guarded-IsEntry e.listening _ e (λ on. finish-IsEntry _ (fail-IsEntry e i)) i
handle_event-IsEntry c timer_fired e i = timer-IsEntry e i
handle_event-IsEntry c started e i =
    guarded-IsEntry e.starting _ e (λ on. finish-IsEntry _ (on_started-IsEntry e on i)) i
handle_event-IsEntry c start_failed e i =
    guarded-IsEntry e.starting _ e (λ on. start_failed-IsEntry e on i) i
handle_event-IsEntry c (stop_settled fine) e i =
    guarded-IsEntry (is_waiting e.stopping) _ e
      (λ on. finish-IsEntry _ (on_stopped-IsEntry fine e on i)) i

run-IsEntry :
    (c : Codec) (events : List Event) (e : ServiceEntry) → IsEntry e → IsEntry (run c e events)
unfolding run step
run-IsEntry c [] e i = i
run-IsEntry c (event ∷ events) e i = run-IsEntry c events _ (handle_event-IsEntry c event e i)

-- Whatever the input and the runtime do, and in any order: the runtime is started at most once; while the
-- entry has not settled, it waits for START, for the start or for the stop under a deadline, or has a
-- runtime that was not told to stop; and a runtime that is there when a stop was asked for, or when the
-- entry has settled, has been told to stop.
pub run_service : (c : Codec) (events : List Event) → IsEntry (run c create events)
unfolding create
run_service c events = run-IsEntry c events create (record {
  once = refl;
  begun = refl;
  single = refl;
  early = refl;
  late = refl;
  stops = refl;
  stopping = refl;
  asked = refl;
  bounded = refl;
})
