-- ===== src/File/Invariant.antt =====
-- The wait group counts the operations in flight, and the handle is closed once, after the last one.
use go_winio.Base.{
  ℕ, ◌+◌, ◌<◌, ◌≤◌, ◌≡◌, ◌≢◌, refl, arith, Bool, true, false, ◌⊎◌, inl, inr, if◌then◌else◌, ◌==◌,
  Bool-cases, ap,
}
use go_winio.Threads.{update, sum, sum-update, le-sum, sum-eq-zero, sum-le, sum-map}
use native.Mathlib.Decide.{dec_lt}
use go_winio.File.System.{
  Op, running, aborting, complete, cancel, Pc, idle, ready, issued, selecting, late, finished,
  swapped, waiting, freeing, System, init, cancel_at, Move, Step, move, prepare, prepare_closed,
  past_deadline, at_once, pend, check_closing, receive, time_out, receive_late, complete_issued,
  complete_selecting, complete_late, done, swap, swap_again, wait, free, again, cancel_all, Reach,
  start, later,
}

-- An operation between `prepareIO` and `wg.Done`.
abbrev pub in_flight : Pc → ℕ
in_flight ready = 1
in_flight (issued op) = 1
in_flight (selecting op) = 1
in_flight (late op) = 1
in_flight (finished r) = 1
in_flight p = 0

-- The goroutine that closes the handle.
abbrev pub closer : Pc → ℕ
closer swapped = 1
closer waiting = 1
closer freeing = 1
closer p = 0

-- The closer behind its `cancelIoEx`.
abbrev pub past_cancel : Pc → ℕ
past_cancel waiting = 1
past_cancel freeing = 1
past_cancel p = 0

abbrev pub at_free : Pc → ℕ
at_free freeing = 1
at_free p = 0

abbrev pub bit : Bool → ℕ
bit true = 1
bit false = 0

pub record Inv (n : ℕ) (s : System) : Type 0 where
  pub counted : s.wg ≡ sum in_flight n s.pc
  pub one_closer : sum closer n s.pc + s.closes ≡ bit s.closing
  pub drained : 0 < sum at_free n s.pc + s.closes → s.wg ≡ 0
  pub swept : 0 < sum past_cancel n s.pc + s.closes → (i : ℕ) → i < n → s.pc i ≢ selecting running
  pub late_cancelled : (i : ℕ) → i < n → s.pc i ≢ late running

-- What a move of one goroutine changes.
record Change (s t : System) (p q : Pc) : Type 0 where
  flight : in_flight p ≤ s.wg → t.wg + in_flight p ≡ s.wg + in_flight q
  enters : in_flight p < in_flight q → s.closing ≡ false
  closers : closer q + t.closes + bit s.closing ≡ closer p + s.closes + bit t.closing
  frees : (at_free q + t.closes ≡ at_free p + s.closes) ⊎ ((s.wg ≡ 0) × (in_flight q ≡ 0))
  past : past_cancel q + t.closes ≡ past_cancel p + s.closes
  fresh : q ≡ selecting running → s.closing ≡ false
  cancelled_late : q ≢ late running

cancel-ne-running : (op : Op) → cancel op ≢ running
unfolding cancel
cancel-ne-running running h = cc
cancel-ne-running aborting h = cc
cancel-ne-running (complete r) h = cc

checked :
    (closing : Bool) (op : Op)
    → selecting (if closing then cancel op else op) ≡ selecting running
    → closing ≡ false
checked true op h = absurd (cancel-ne-running op (cc))
checked false op h = refl

Move-Change :
    {socket kernel timed : Bool} {s t : System} {p q : Pc}
    → Move socket kernel timed s p t q
    → Change s t p q
Move-Change (check_closing op) = record {
  flight = λ _. refl;
  enters = λ h. absurd (omega arith);
  closers = refl;
  frees = inl refl;
  past = refl;
  fresh = checked _ op;
  cancelled_late = λ h. cc;
}
Move-Change (time_out op e) = record {
  flight = λ _. refl;
  enters = λ h. absurd (omega arith);
  closers = refl;
  frees = inl refl;
  past = refl;
  fresh = λ h. cc;
  cancelled_late = λ h. cancel-ne-running op (cc);
}
Move-Change (prepare c) = ground arith
Move-Change (prepare_closed c) = ground arith
Move-Change (past_deadline e) = ground arith
Move-Change (at_once r h) = ground arith
Move-Change pend = ground arith
Move-Change (receive r e) = ground arith
Move-Change (receive_late r) = ground arith
Move-Change (complete_issued op r h) = ground arith
Move-Change (complete_selecting op r h) = ground arith
Move-Change (complete_late op r h) = ground arith
Move-Change (done r) = ground arith
Move-Change (swap c) = ground arith
Move-Change (swap_again c) = ground arith
Move-Change (wait h) = ground arith
Move-Change free = ground arith
Move-Change (again r) = ground arith

at_free-le : (p : Pc) → at_free p ≤ past_cancel p
at_free-le freeing = omega arith
at_free-le p = ground arith

past_cancel-le : (p : Pc) → past_cancel p ≤ closer p
past_cancel-le p = ground arith

-- Once a closer is behind its `cancelIoEx`, the file is closing.
closing_of_past :
    (n : ℕ) (s : System) → Inv n s → 0 < sum past_cancel n s.pc + s.closes → s.closing ≡ true
closing_of_past n s inv h = elim (Bool-cases s.closing) [
  | inl e ↦ e
  | inr e ↦ absurd (ground (arith, inv.one_closer, sum-le past_cancel closer n s.pc past_cancel-le))
]

-- `updated` is the state after a move: `t` with the goroutine `i` at `q`.
module _ (n : ℕ) (s t : System) (i : ℕ) (q : Pc) (lt : i < n) (inv : Inv n s)
    (c : Change s t (s.pc i) q) where
  sums : (w : Pc → ℕ) → sum w n (update s.pc i q) + w (s.pc i) ≡ sum w n s.pc + w q
  sums w = sum-update w n s.pc i q lt

  enough : in_flight (s.pc i) ≤ s.wg
  enough = omega (arith, inv.counted, le-sum in_flight n s.pc i lt)

  Change-counted : t.wg ≡ sum in_flight n (update s.pc i q)
  Change-counted = omega (arith, c.flight enough, inv.counted, sums in_flight)

  Change-one_closer : sum closer n (update s.pc i q) + t.closes ≡ bit t.closing
  Change-one_closer = omega (arith, c.closers, inv.one_closer, sums closer)

  no_entry : s.closing ≡ true → in_flight q ≤ in_flight (s.pc i)
  no_entry k = elim (dec_lt (in_flight (s.pc i)) (in_flight q)) [
    | yes l ↦ absurd (cc (k, c.enters l))
    | no l ↦ omega arith
  ]

  Change-drained : 0 < sum at_free n (update s.pc i q) + t.closes → t.wg ≡ 0
  Change-drained h = elim c.frees [
    | inl e ↦
        (let old : 0 < sum at_free n s.pc + s.closes = omega (arith, e, sums at_free) in
          let k =
            closing_of_past n s inv (omega (arith, sum-le at_free past_cancel n s.pc at_free-le)) in
          omega (arith, inv.drained old, no_entry k, c.flight enough, enough))
    | inr (z, y) ↦ omega (arith, c.flight enough, enough)
  ]

  Change-swept :
      0 < sum past_cancel n (update s.pc i q) + t.closes
      → (j : ℕ) → j < n
      → update s.pc i q j ≢ selecting running
  Change-swept h j l e =
      let old : 0 < sum past_cancel n s.pc + s.closes = omega (arith, c.past, sums past_cancel) in
      elim (Bool-cases (i == j)) [
        | inl same ↦ absurd (cc (closing_of_past n s inv old, c.fresh (rw same at e)))
        | inr other ↦ inv.swept old j l (rw other at e)
      ]

  Change-late : (j : ℕ) → j < n → update s.pc i q j ≢ late running
  Change-late j l e = elim (Bool-cases (i == j)) [
    | inl same ↦ c.cancelled_late (rw same at e)
    | inr other ↦ inv.late_cancelled j l (rw other at e)
  ]

  Change-Inv : Inv n (record t { pc = update s.pc i q })
  Change-Inv = record {
    counted = Change-counted;
    one_closer = Change-one_closer;
    drained = Change-drained;
    swept = Change-swept;
    late_cancelled = Change-late;
  }

-- A cancellation moves no goroutine.
cancel_at_parts :
    (p : Pc)
    → (in_flight (cancel_at p) ≡ in_flight p)
      × (closer (cancel_at p) ≡ closer p)
      × (at_free (cancel_at p) ≡ at_free p)
unfolding cancel_at
cancel_at_parts p = ground arith

not_running : (p : Pc) → (cancel_at p ≢ selecting running) × (cancel_at p ≢ late running)
unfolding cancel_at
not_running (selecting op) = ((λ h. cancel-ne-running op (cc)), λ h. cc)
not_running (late op) = ((λ h. cc), λ h. cancel-ne-running op (cc))
not_running p = ((λ h. cc), λ h. cc)

module _ (n : ℕ) (s : System) (i : ℕ) (lt : i < n) (inv : Inv n s) (here : s.pc i ≡ swapped) where
  cancelled : ℕ → Pc
  cancelled j = cancel_at (s.pc j)

  sweep_sums :
      (w : Pc → ℕ)
      → ((p : Pc) → w (cancel_at p) ≡ w p)
      → sum w n (update cancelled i waiting) + w swapped ≡ sum w n s.pc + w waiting
  unfolding cancelled cancel_at
  sweep_sums w same =
      let at : w (cancelled i) ≡ w swapped = ap w (ap cancel_at here) in
      omega (arith, sum-update w n cancelled i waiting lt, sum-map w cancel_at n s.pc same)

  cancel_all-Inv : Inv n (record s { pc = update (λ j. cancel_at (s.pc j)) i waiting })
  unfolding cancelled
  cancel_all-Inv = record {
    counted = omega (arith, inv.counted, sweep_sums in_flight (λ p. (cancel_at_parts p).0));
    one_closer = omega (arith, inv.one_closer, sweep_sums closer (λ p. (cancel_at_parts p).1));
    drained = λ h. inv.drained (omega (arith, sweep_sums at_free (λ p. (cancel_at_parts p).2)));
    swept = λ h j l e. elim (Bool-cases (i == j)) [
      | inl same ↦ cc (rw same at e)
      | inr other ↦ (not_running (s.pc j)).0 (rw other at e)
    ];
    late_cancelled = λ j l e. elim (Bool-cases (i == j)) [
      | inl same ↦ cc (rw same at e)
      | inr other ↦ (not_running (s.pc j)).1 (rw other at e)
    ];
  }

pub Step-Inv :
    {n : ℕ} {socket kernel timed : Bool} {s t : System}
    → Step n socket kernel timed s t
    → Inv n s
    → Inv n t
Step-Inv {n} {s = s} (move i lt m) inv = Change-Inv n s _ i _ lt inv (Move-Change m)
Step-Inv {n} {s = s} (cancel_all i lt e) inv = cancel_all-Inv n s i lt inv e

pub init-Inv : (n : ℕ) → Inv n init
init-Inv n = record {
  counted = omega (arith, sum-eq-zero in_flight n (λ _. idle) (λ _. refl));
  one_closer = omega (arith, sum-eq-zero closer n (λ _. idle) (λ _. refl));
  drained = λ h. refl;
  swept = λ h i l e. cc;
  late_cancelled = λ i l e. cc;
}

pub Reach-Inv :
    {n : ℕ} {socket kernel timed : Bool} {s : System} → Reach n socket kernel timed s → Inv n s
Reach-Inv {n} start = init-Inv n
Reach-Inv (later r st) = Step-Inv st (Reach-Inv r)

-- In every reachable state the handle was closed at most once, and if it was, no operation is between
-- `prepareIO` and `wg.Done`; an operation that stands before `wg.Done` is counted, so the counter does
-- not become negative; and while a closer waits or is done, no operation stands uncancelled in the
-- `select` of `asyncIO`.
pub handle_closed_once :
    {n : ℕ} {socket kernel timed : Bool} {s : System}
    → Reach n socket kernel timed s
    → (s.closes ≤ 1)
      × ((i : ℕ) → i < n → 0 < s.closes → in_flight (s.pc i) ≡ 0)
      × ((i : ℕ) → i < n → in_flight (s.pc i) ≤ s.wg)
      × ((i j : ℕ)
          → i < n
          → j < n
          → 0 < past_cancel (s.pc i) + s.closes
          → s.pc j ≢ selecting running)
handle_closed_once {n} {s = s} r =
    let inv = Reach-Inv r in
    let counted = inv.counted in
    (
      ground (arith, inv.one_closer),
      (λ i l h. omega (arith, counted, inv.drained (omega arith), le-sum in_flight n s.pc i l)),
      (λ i l. omega (arith, counted, le-sum in_flight n s.pc i l)),
      (λ i j l k h. inv.swept (omega (arith, le-sum past_cancel n s.pc i l)) j k),
    )
