-- ===== src/Smo/Checking.antt =====
-- internal/smo/registry.go: StartHealthChecks, StopHealthChecks and healthCheckLoop, as they may be
-- interleaved. A step is what the code does at once: the compare-and-swap of a start and its
-- Wg.Add with the new goroutine, the Load of a stop and its close of the channel, the end of a wait,
-- the end of a loop.
use netweave.Common.{
  ℕ, suc, ◌+◌, ◌-◌, ◌≤◌, ◌<◌, ◌≡◌, refl, Bool, true, false, ◌||◌, arith, if◌then◌else◌, Result, ok,
  err,
}

pub record Checks : Type 0 where
  pub running : Bool  -- healthCheckRunning
  pub starting : ℕ  -- the calls of StartHealthChecks between the swap and Wg.Add
  pub stopping : ℕ  -- the calls of StopHealthChecks between the Load and the close
  pub channel_closed : Bool  -- stopHealthCheck
  pub loops : ℕ  -- healthCheckWg
  pub waiting : ℕ  -- the calls of StopHealthChecks in healthCheckWg.Wait()
  pub cancelled : Bool  -- the context of the loops

-- close of a closed channel panics
pub data Panic : Type 0 where
  closed_twice : Panic

unfoldable pub new_checks : Checks
new_checks = record {
  running = false;
  starting = 0;
  stopping = 0;
  channel_closed = false;
  loops = 0;
  waiting = 0;
  cancelled = false;
}

-- StartHealthChecks up to the compare-and-swap.
unfoldable pub claim_start : Checks → Checks
claim_start c = if c.running then c else record c { running = true; starting = suc c.starting }

-- Its rest, once the swap succeeded: the loop counts from Wg.Add on.
unfoldable pub launch_loop : Checks → Checks
launch_loop c = record c { starting = c.starting - 1; loops = suc c.loops }

-- A call that nothing interrupts.
unfoldable pub start_health_checks : Checks → Checks
start_health_checks c = if c.running then c else launch_loop (claim_start c)

-- StopHealthChecks up to the Load.
unfoldable pub claim_stop : Checks → Checks
claim_stop c = if c.running then record c { stopping = suc c.stopping } else c

-- Its close of the channel, after which it waits.
unfoldable pub close_channel : Checks → Result Panic Checks
close_channel c =
    if c.channel_closed
    then err closed_twice
    else ok (record c { channel_closed = true; stopping = c.stopping - 1; waiting = suc c.waiting })

-- A call up to its wait that nothing interrupts.
unfoldable pub stop_health_checks : Checks → Result Panic Checks
stop_health_checks c = if c.running then close_channel (claim_stop c) else ok c

-- The rest of StopHealthChecks.
unfoldable pub finish_stop : Checks → Checks
finish_stop c = record c { running = false; waiting = c.waiting - 1 }

-- healthCheckLoop returns.
unfoldable pub end_loop : Checks → Checks
end_loop c = record c { loops = c.loops - 1 }

pub data Step : Checks → Checks → Type 0 where
  starts : (c : Checks) → Step c (claim_start c)
  launches : (c : Checks) → 0 < c.starting → Step c (launch_loop c)
  stops : (c : Checks) → Step c (claim_stop c)
  closes : (c d : Checks) → 0 < c.stopping → close_channel c ≡ ok d → Step c d
  stopped : (c : Checks) → 0 < c.waiting → c.loops ≡ 0 → Step c (finish_stop c)
  ends : (c : Checks) → 0 < c.loops → (c.channel_closed || c.cancelled) ≡ true → Step c (end_loop c)
  cancels : (c : Checks) → Step c (record c { cancelled = true })

pub data Run (c : Checks) : Checks → Type 0 where
  here : Run c c
  next : {d e : Checks} → Run c d → Step d e → Run c e

-- While the channel is open, at most one loop is there or about to be, and none while no check is
-- running; and no call of StopHealthChecks waits.
abbrev pub IsSingle : Checks → Type 0
IsSingle c =
    c.channel_closed ≡ false
    → (c.loops + c.starting ≤ 1) × (c.waiting ≡ 0) × (c.running ≡ false → c.loops + c.starting ≡ 0)

Step-IsSingle : {c d : Checks} → Step c d → IsSingle c → IsSingle d
unfolding claim_start launch_loop claim_stop close_channel finish_stop end_loop
Step-IsSingle (starts c) s h = grind arith
Step-IsSingle (launches c l) s h = grind arith
Step-IsSingle (stops c) s h = grind arith
Step-IsSingle (closes c d l e) s h = grind arith
Step-IsSingle (stopped c w l) s h = grind arith
Step-IsSingle (ends c l e) s h = grind arith
Step-IsSingle (cancels c) s h = s h

Run-IsSingle : {c d : Checks} → IsSingle c → Run c d → IsSingle d
Run-IsSingle s here = s
Run-IsSingle s (next r st) = Step-IsSingle st (Run-IsSingle s r)

new_checks-IsSingle : IsSingle new_checks
unfolding new_checks
new_checks-IsSingle h = (omega arith, refl, λ e. refl)

-- However the steps of the calls on a new registry are interleaved, as long as no call of
-- StopHealthChecks has closed the channel, there is at most one health check loop, those about to be
-- launched included, and none while the registry is not marked as running one; and no call waits.
pub checks-IsSingle :
    (c : Checks)
    → Run new_checks c
    → c.channel_closed ≡ false
    → (c.loops + c.starting ≤ 1) × (c.waiting ≡ 0) × (c.running ≡ false → c.loops + c.starting ≡ 0)
checks-IsSingle c r = Run-IsSingle new_checks-IsSingle r

Step-closed : {c d : Checks} → Step c d → c.channel_closed ≡ true → d.channel_closed ≡ true
unfolding claim_start launch_loop claim_stop close_channel finish_stop end_loop
Step-closed (starts c) h = ground arith
Step-closed (launches c l) h = h
Step-closed (stops c) h = ground arith
Step-closed (closes c d l e) h = ground arith
Step-closed (stopped c w l) h = h
Step-closed (ends c l e) h = h
Step-closed (cancels c) h = h

Run-closed : {c d : Checks} → Run c d → c.channel_closed ≡ true → d.channel_closed ≡ true
Run-closed here h = h
Run-closed (next r st) h = Step-closed st (Run-closed r h)

stop-closed :
    (c d : Checks) → c.running ≡ true → stop_health_checks c ≡ ok d → d.channel_closed ≡ true
unfolding stop_health_checks close_channel claim_stop
stop-closed c d h k = ground arith

closed_panics :
    (c : Checks)
    → c.channel_closed ≡ true
    → stop_health_checks (start_health_checks c) ≡ err closed_twice
unfolding start_health_checks stop_health_checks close_channel claim_stop launch_loop claim_start
closed_panics c h = ground arith

-- After a call of StopHealthChecks that had a loop to stop, whatever happens next, a start followed
-- by a stop closes the channel a second time, which panics.
pub restart_panics :
    (c d e : Checks)
    → c.running ≡ true
    → stop_health_checks c ≡ ok d
    → Run d e
    → stop_health_checks (start_health_checks e) ≡ err closed_twice
restart_panics c d e h k r = closed_panics e (Run-closed r (stop-closed c d h k))
