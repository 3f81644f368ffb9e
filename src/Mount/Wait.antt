-- ===== src/Mount/Wait.antt =====
-- The wait for a device of pkg/mount/mount.go.
use gokrazy_router.Prelude.{ℕ, ◌+◌, ◌/◌, ◌≤◌, ◌++◌, arith, Text, codes}
use gokrazy_router.Prelude.Poll.{Ending, poll-Ending}
use gokrazy_router.Mount.{Host, clock, wait_for_device}

-- Where the clock does not go back and a sleep takes its time, the wait ends in one of two ways: the
-- device was there, and nothing was done since it was seen; or the error says that the time is over, and
-- the whole time has passed.
pub wait_for_device-Ending :
    {World : Type 0} (host : Host World)
    → ((path : Text) (w : World) → host.now w ≤ host.now (host.stat path w).1)
    → ((n : ℕ) (w : World) → host.now w + n ≤ host.now (host.sleep n w))
    → (device : Text) (timeout : ℕ) (w : World)
    → Ending
        (clock host)
        (host.stat device)
        500
        (codes "timeout waiting for " ++ device)
        (host.now w + timeout)
        (wait_for_device host device timeout w)
unfolding wait_for_device
wait_for_device-Ending host stat_later sleep_later device timeout w =
    poll-Ending (clock host) (host.stat device) 500 (codes "timeout waiting for " ++ device)
      (stat_later device) sleep_later (host.now w + timeout) (timeout / 500 + 1) w (omega arith)
