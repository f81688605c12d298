-- ===== src/File/Progress.antt =====
-- A `Close` that has begun can always be brought to its end, also if the kernel completes no operation
-- that was not cancelled and no deadline passes.
use go_winio.Base.{
  ℕ, zero, suc, ◌+◌, ◌<◌, ◌≡◌, ◌≢◌, refl, ap, arith, Bool, true, false, none, some, inl,
  if◌then◌else◌,
}
use go_winio.Threads.{update, sum, sum-update, le-sum, sum_pos}
use native.Mathlib.Decide.{ℕ_discrete}
use go_winio.File.{IoResult, operation_aborted}
use go_winio.File.System.{
  Op, running, aborting, complete, cancel, Pc, idle, ready, issued, selecting, late, finished,
  returned, swapped, waiting, freeing, left, System, cancel_at, Move, Step, move, pend,
  check_closing, receive, receive_late, complete_selecting, complete_late, done, wait, free,
  cancel_all, Reach,
}
use go_winio.File.Invariant.{in_flight, closer, past_cancel, Inv, Step-Inv, Reach-Inv}

-- Steps from `s` on.
pub data Leads (n : ℕ) (socket kernel timed : Bool) : System → System → Type 0 where
  here : {s : System} → Leads n socket kernel timed s s
  first :
      {s t u : System}
      → Step n socket kernel timed s t
      → Leads n socket kernel timed t u
      → Leads n socket kernel timed s u

-- How many moves an operation has left.
abbrev effort : Pc → ℕ
effort ready = 6
effort (issued op) = 5
effort (selecting aborting) = 4
effort (selecting running) = 4
effort (selecting (complete r)) = 3
effort (late aborting) = 4
effort (late running) = 4
effort (late (complete r)) = 3
effort (finished r) = 1
effort p = 0

aborted : IoResult
aborted = record { bytes = 0; err = some operation_aborted }

-- A move that brings an operation nearer to its end.
record Advance (socket : Bool) (s : System) (p : Pc) : Type 0 where
  after : System
  at : Pc
  by : Move socket false false s p after at
  less : effort at < effort p
  still : after.closing ≡ true
  unfreed : after.closes ≡ s.closes
  past : past_cancel at ≡ past_cancel p

cancelled_effort : (op : Op) → effort (selecting (cancel op)) < 5
unfolding cancel
cancelled_effort running = omega arith
cancelled_effort aborting = omega arith
cancelled_effort (complete r) = omega arith

advance :
    (socket : Bool) (s : System) (p : Pc)
    → s.closing ≡ true
    → 0 < in_flight p
    → p ≢ selecting running
    → p ≢ late running
    → Advance socket s p
advance socket s ready c h a b = record {
  after = s;
  at = issued running;
  by = pend;
  less = omega arith;
  still = c;
  unfreed = refl;
  past = refl;
}
advance socket s (issued op) c h a b = record {
  after = s;
  at = selecting (if s.closing then cancel op else op);
  by = check_closing op;
  less = rw c (cancelled_effort op);
  still = c;
  unfreed = refl;
  past = refl;
}
advance socket s (selecting running) c h a b = absurd (a refl)
advance socket s (selecting aborting) c h a b = record {
  after = s;
  at = selecting (complete aborted);
  by = complete_selecting aborting aborted (inl refl);
  less = omega arith;
  still = c;
  unfreed = refl;
  past = refl;
}
advance socket s (selecting (complete r)) c h a b = record {
  after = s;
  at = _;
  by = receive r none;
  less = omega arith;
  still = c;
  unfreed = refl;
  past = refl;
}
advance socket s (late running) c h a b = absurd (b refl)
advance socket s (late aborting) c h a b = record {
  after = s;
  at = late (complete aborted);
  by = complete_late aborting aborted (inl refl);
  less = omega arith;
  still = c;
  unfreed = refl;
  past = refl;
}
advance socket s (late (complete r)) c h a b = record {
  after = s;
  at = _;
  by = receive_late r;
  less = omega arith;
  still = c;
  unfreed = refl;
  past = refl;
}
advance socket s (finished r) c h a b = record {
  after = _;
  at = returned r;
  by = done r;
  less = omega arith;
  still = c;
  unfreed = refl;
  past = refl;
}
advance socket s idle c h a b = absurd (omega arith)
advance socket s (returned r) c h a b = absurd (omega arith)
advance socket s swapped c h a b = absurd (omega arith)
advance socket s waiting c h a b = absurd (omega arith)
advance socket s freeing c h a b = absurd (omega arith)
advance socket s left c h a b = absurd (omega arith)

-- The handle gets closed on some way from `s`.
abbrev pub GetsClosed : ℕ → Bool → System → Type 0
GetsClosed n socket s = (t : System) × Leads n socket false false s t × (t.closes ≡ 1)

step_first :
    {n : ℕ} {socket : Bool} {s t : System}
    → Step n socket false false s t
    → GetsClosed n socket t
    → GetsClosed n socket s
step_first st (u, way, e) = (u, first st way, e)

-- With no operation in flight, the waiting goroutine closes the handle.
last_steps :
    (n : ℕ) (socket : Bool) (s : System) (i : ℕ)
    → i < n
    → 0 < past_cancel (s.pc i)
    → s.wg ≡ 0
    → s.closes ≡ 0
    → GetsClosed n socket s
last_steps n socket s i lt h w z = go (s.pc i) refl h
  where
    freed : (r : System) → r.pc i ≡ freeing → r.closes ≡ 0 → GetsClosed n socket r
    freed r e z' = (
      _,
      first (move i {t = record r { closes = r.closes + 1 }} {p = left} lt (rw e free)) here,
      omega arith,
    )

    go : (p : Pc) → s.pc i ≡ p → 0 < past_cancel p → GetsClosed n socket s
    go waiting e p =
        step_first (move i {t = s} {p = freeing} lt (rw e (wait w)))
          (freed (record s { pc = update s.pc i freeing }) (ground arith) z)
    go freeing e p = freed s e z
    go _ e p = absurd (omega arith)

drain :
    (n : ℕ) (socket : Bool) (k : ℕ) (s : System)
    → Inv n s
    → s.closing ≡ true
    → 0 < sum past_cancel n s.pc
    → s.closes ≡ 0
    → sum effort n s.pc < k
    → GetsClosed n socket s
drain n socket zero s inv c p z h = absurd (omega arith)
drain n socket (suc k) s inv c p z h = elim (ℕ_discrete s.wg 0) [
  | yes e ↦ (let (i, lt, q) = sum_pos past_cancel n s.pc p in last_steps n socket s i lt q e z)
  | no e ↦
      (let (i, lt, q) = sum_pos in_flight n s.pc (omega (arith, inv.counted)) in
        let a =
          advance socket s (s.pc i) c q (inv.swept (omega arith) i lt) (inv.late_cancelled i lt) in
        let st : Step n socket false false s (record a.after { pc = update s.pc i a.at }) =
          move i lt a.by in
        step_first st (
          drain n socket k _ (Step-Inv st inv) a.still
            (omega (arith, a.past, sum-update past_cancel n s.pc i a.at lt))
            (omega (arith, a.unfreed)) (omega (arith, a.less, sum-update effort n s.pc i a.at lt))))
]

drain_all :
    (n : ℕ) (socket : Bool) (s : System)
    → Inv n s
    → s.closing ≡ true
    → 0 < sum past_cancel n s.pc
    → s.closes ≡ 0
    → GetsClosed n socket s
drain_all n socket s inv c p z = drain n socket (suc (sum effort n s.pc)) s inv c p z (omega arith)

-- From the goroutine that closes, wherever it stands.
from_closer :
    (n : ℕ) (socket : Bool) (s : System) (i : ℕ)
    → Inv n s
    → s.closing ≡ true
    → s.closes ≡ 0
    → i < n
    → 0 < closer (s.pc i)
    → GetsClosed n socket s
from_closer n socket s i inv c z lt h = go (s.pc i) refl h
  where
    already : 0 < past_cancel (s.pc i) → GetsClosed n socket s
    already q = drain_all n socket s inv c (omega (arith, le-sum past_cancel n s.pc i lt)) z

    go : (p : Pc) → s.pc i ≡ p → 0 < closer p → GetsClosed n socket s
    go swapped e q =
        let f = update (λ j. cancel_at (s.pc j)) i waiting in
        let st : Step n socket false false s (record s { pc = f }) = cancel_all i lt e in
        let at : f i ≡ waiting = ground arith in
        step_first st (
          drain_all n socket _ (Step-Inv st inv) c
            (omega (arith, le-sum past_cancel n f i lt, ap past_cancel at)) z)
    go waiting e q = already (rw e (omega arith))
    go freeing e q = already (rw e (omega arith))
    go _ e q = absurd (omega arith)

-- In every reachable state in which a `Close` has begun, some sequence of steps closes the handle, on which
-- the kernel completes only operations that were cancelled and no deadline passes.
pub close_ends :
    {n : ℕ} {socket kernel timed : Bool} {s : System}
    → Reach n socket kernel timed s
    → s.closing ≡ true
    → (t : System) × Leads n socket false false s t × (t.closes ≡ 1)
close_ends {n} {socket} {s = s} r c =
    let inv = Reach-Inv r in
    elim (ℕ_discrete s.closes 0) [
      | yes z ↦
          (let (i, lt, h) = sum_pos closer n s.pc (ground (arith, inv.one_closer)) in
            from_closer n socket s i inv c z lt h)
      | no z ↦ (s, here, ground (arith, inv.one_closer))
    ]
