-- ===== src/RwLock.antt =====
-- src/xengine/rwlock.h: the read, write and upgrade lock. The mutex makes each stretch between two
-- waits one step. A thread that waits on a condition variable may take its next step whenever the
-- loop's test lets it, woken by a notification or not.
pub mod Threads
pub mod Exclusion
use mamio.Base.{ℕ, ◌+◌, ◌-◌, Bool, true, false, not, ◌&&◌, ◌||◌, ◌==◌, if◌then◌else◌}

pub record RwAccess : Type 0 where
  pub read : ℕ
  pub write : ℕ
  pub exclusive : Bool
  pub upgraded : Bool

abbrev pub new_access : RwAccess
new_access = record { read = 0; write = 0; exclusive = false; upgraded = false }

-- The condition variable that an unlock notifies.
pub data Notify : Type 0 where
  nobody one_write one_upgrade all_read : Notify

-- The tests of the waiting loops, negated: whether the thread goes on.
abbrev pub read_may_enter : RwAccess → Bool
read_may_enter a = a.write == 0 && not a.upgraded

abbrev pub write_may_enter : RwAccess → Bool
write_may_enter a = a.read == 0 && not a.exclusive

abbrev pub upgrade_may_enter : RwAccess → Bool
upgrade_may_enter a = not a.exclusive

abbrev pub upgraded_may_enter : RwAccess → Bool
upgraded_may_enter a = a.read == 0

-- What ReadLock does when it leaves its loop.
unfoldable pub read_lock : RwAccess → RwAccess
read_lock a = record a { read = a.read + 1 }

unfoldable pub read_try_lock : RwAccess → RwAccess × Bool
unfolding read_lock
read_try_lock a = if read_may_enter a then (read_lock a, true) else (a, false)

unfoldable pub read_unlock : RwAccess → RwAccess × Notify
read_unlock a =
    let a' = record a { read = a.read - 1 } in
    if a.read - 1 == 0
    then (a', if a.exclusive then one_upgrade else if a.write == 0 then nobody else one_write)
    else (a', nobody)

-- WriteLock announces itself before it waits, and takes the lock when it leaves its loop.
unfoldable pub write_announce : RwAccess → RwAccess
write_announce a = record a { write = a.write + 1 }

unfoldable pub write_lock : RwAccess → RwAccess
write_lock a = record a { exclusive = true }

unfoldable pub write_unlock : RwAccess → RwAccess × Notify
write_unlock a = (
  record a { write = a.write - 1; exclusive = false },
  if a.write - 1 == 0 then all_read else one_write,
)

unfoldable pub upgrade_lock : RwAccess → RwAccess
upgrade_lock a = record a { exclusive = true }

-- UpgradeToWriteLock shuts new readers out before it waits for the old ones.
unfoldable pub upgrade_announce : RwAccess → RwAccess
upgrade_announce a = record a { upgraded = true }

unfoldable pub upgrade_unlock : RwAccess → RwAccess × Notify
upgrade_unlock a = (
  record a { exclusive = false; upgraded = false },
  if not (a.write == 0) && (a.upgraded || a.read == 0) then one_write else all_read,
)
