-- ===== src/File/Deadline.antt =====
-- file.go: `deadlineHandler`. The function of the timer runs in three moves, which may stand anywhere
-- between calls of `set`; a call of `set` holds `setLock` and is one step. Only whether the channel is
-- closed matters of it.
use go_winio.Base.{
  ◌≡◌, refl, arith, Bool, true, false, if◌then◌else◌, List, [], ◌∷◌, Result, ok, panic, ◌>>=◌,
}

pub data Timer : Type 0 where
  no_timer armed : Timer
  started : Timer  -- before `timedout.setTrue`
  marked : Timer  -- before `close(d.channel)`
  fired : Timer

pub record DeadlineHandler : Type 0 where
  pub timer : Timer
  pub channel_closed : Bool
  pub timedout : Bool

abbrev pub new_handler : DeadlineHandler
new_handler = record { timer = no_timer; channel_closed = false; timedout = false }

-- The deadline, against the time of the call.
pub data When : Type 0 where
  never past future : When

-- `close(d.channel)`, which panics on a closed channel.
close_channel : DeadlineHandler → Result (Unit {0}) DeadlineHandler
close_channel d = if d.channel_closed then panic else ok (record d { channel_closed = true })

-- `timeoutIO`
timeout_io : DeadlineHandler → Result (Unit {0}) DeadlineHandler
unfolding close_channel
timeout_io d = close_channel (record d { timedout = true })

-- The next move of the timer, if it has one.
tick_at : Timer → DeadlineHandler → Result (Unit {0}) DeadlineHandler
unfolding close_channel
tick_at armed d = ok (record d { timer = started })
tick_at started d = ok (record d { timer = marked; timedout = true })
tick_at marked d = close_channel (record d { timer = fired })
tick_at _ d = ok d

pub tick : DeadlineHandler → Result (Unit {0}) DeadlineHandler
unfolding tick_at
tick d = tick_at d.timer d

-- `timer.Stop`; where it comes too late, `<-d.channel` waits for what the timer has left to do, unless
-- the channel is closed already.
stop_at : Timer → DeadlineHandler → Result (Unit {0}) DeadlineHandler
unfolding timeout_io close_channel
stop_at no_timer d = ok d
stop_at armed d = ok d
stop_at _ d = if d.channel_closed then ok d else timeout_io d

-- A closed channel is replaced.
renew : DeadlineHandler → DeadlineHandler
renew d = if d.channel_closed then record d { channel_closed = false } else d

start_at : When → DeadlineHandler → Result (Unit {0}) DeadlineHandler
unfolding timeout_io
start_at never d = ok d
start_at future d = ok (record d { timer = armed })
start_at past d = timeout_io d

pub set : When → DeadlineHandler → Result (Unit {0}) DeadlineHandler
unfolding stop_at renew start_at
set deadline d = do
  d1 ← stop_at d.timer d
  start_at deadline (renew (record d1 { timer = no_timer; timedout = false }))

-- What happens to a handler.
pub data DeadlineEvent : Type 0 where
  call : When → DeadlineEvent
  elapse : DeadlineEvent

pub run : List DeadlineEvent → DeadlineHandler → Result (Unit {0}) DeadlineHandler
run [] d = ok d
run (call w ∷ es) d = do d1 ← set w d; run es d1
run (elapse ∷ es) d = do d1 ← tick d; run es d1

-- The channel is closed exactly when a deadline has passed, and a timer that has not got to closing it
-- finds it open.
abbrev pub IsConsistent : DeadlineHandler → Type 0
IsConsistent d = elim d.timer [
  | no_timer ↦ d.timedout ≡ d.channel_closed
  | armed ↦ (d.timedout ≡ false) × (d.channel_closed ≡ false)
  | started ↦ (d.timedout ≡ false) × (d.channel_closed ≡ false)
  | marked ↦ (d.timedout ≡ true) × (d.channel_closed ≡ false)
  | fired ↦ (d.timedout ≡ true) × (d.channel_closed ≡ true)
]

-- What a call of `set` leaves.
abbrev pub fresh : When → DeadlineHandler
fresh never = new_handler
fresh past = record new_handler { channel_closed = true; timedout = true }
fresh future = record new_handler { timer = armed }

-- Whatever happened before, `set` does not panic, and leaves a handler that depends on the deadline
-- only: without a deadline or with a later one it is not timed out and its channel is open, with a past
-- one it is timed out and the channel is closed, and a timer runs exactly for a later one.
pub set-fresh : (w : When) (d : DeadlineHandler) → IsConsistent d → set w d ≡ ok (fresh w)
unfolding set stop_at renew start_at timeout_io close_channel
set-fresh w d h = ground arith

fresh-IsConsistent : (w : When) → IsConsistent (fresh w)
fresh-IsConsistent never = refl
fresh-IsConsistent past = refl
fresh-IsConsistent future = (refl, refl)

tick-IsConsistent :
    (d : DeadlineHandler)
    → IsConsistent d
    → (d' : DeadlineHandler) × (tick d ≡ ok d') × IsConsistent d'
unfolding tick close_channel
tick-IsConsistent d h = go d.timer d refl h
  where
    go :
        (t : Timer) (d : DeadlineHandler)
        → d.timer ≡ t
        → IsConsistent d
        → (d' : DeadlineHandler) × (tick d ≡ ok d') × IsConsistent d'
    go no_timer d e h = (d, ground arith, h)
    go armed d e h = (record d { timer = started }, ground arith, ground arith)
    go started d e h = (record d { timer = marked; timedout = true }, ground arith, ground arith)
    go marked d e h =
        (record d { timer = fired; channel_closed = true }, ground arith, ground arith)
    go fired d e h = (d, ground arith, h)

-- No order of calls of `set` and of the timer's moves makes `close(d.channel)` panic, and after all of
-- them the handler is timed out exactly if its channel is closed, but for the moment in which the timer
-- is about to close it.
pub run-IsConsistent :
    (es : List DeadlineEvent) (d : DeadlineHandler)
    → IsConsistent d
    → (d' : DeadlineHandler) × (run es d ≡ ok d') × IsConsistent d'
unfolding run
run-IsConsistent [] d h = (d, refl, h)
run-IsConsistent (call w ∷ es) d h =
    rw (set-fresh w d h) (run-IsConsistent es (fresh w) (fresh-IsConsistent w))
run-IsConsistent (elapse ∷ es) d h =
    let (d1, e, h1) = tick-IsConsistent d h in rw e (run-IsConsistent es d1 h1)
