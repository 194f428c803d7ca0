-- ===== src/RwLock/Threads.antt =====
-- Threads that use one CRWAccess through CReadLock, CWriteLock and CUpgradeLock, as interleavings.
use mamio.Base.{ℕ, zero, suc, ◌+◌, ◌≡◌, true, List, [], ◌∷◌, Option, none, some, set, arith}
use mamio.RwLock.{
  RwAccess, read_may_enter, write_may_enter, upgrade_may_enter, upgraded_may_enter, read_lock,
  read_unlock, write_announce, write_lock, write_unlock, upgrade_lock, upgrade_announce,
  upgrade_unlock, new_access,
}

-- Where a thread is. `upgrading` has called Upgrade and waits for the readers.
pub data Mode : Type 0 where
  idle reading write_waiting writing upgradable upgrading upgraded : Mode

pub record World : Type 0 where
  pub access : RwAccess
  pub threads : List Mode

abbrev pub mode_at : List Mode → ℕ → Option Mode
mode_at [] i = none
mode_at (m ∷ ms) zero = some m
mode_at (m ∷ ms) (suc i) = mode_at ms i

abbrev pub move : World → ℕ → Mode → RwAccess → World
move w i m a = record { access = a; threads = set w.threads i m }

-- One step of thread `i`.
pub data Step (w : World) : World → Type 0 where
  locks_read :
      (i : ℕ)
      → mode_at w.threads i ≡ some idle
      → read_may_enter w.access ≡ true
      → Step w (move w i reading (read_lock w.access))
  unlocks_read :
      (i : ℕ) → mode_at w.threads i ≡ some reading → Step w (move w i idle (read_unlock w.access).0)
  announces_write :
      (i : ℕ)
      → mode_at w.threads i ≡ some idle
      → Step w (move w i write_waiting (write_announce w.access))
  locks_write :
      (i : ℕ)
      → mode_at w.threads i ≡ some write_waiting
      → write_may_enter w.access ≡ true
      → Step w (move w i writing (write_lock w.access))
  unlocks_write :
      (i : ℕ)
      → mode_at w.threads i ≡ some writing
      → Step w (move w i idle (write_unlock w.access).0)
  locks_upgrade :
      (i : ℕ)
      → mode_at w.threads i ≡ some idle
      → upgrade_may_enter w.access ≡ true
      → Step w (move w i upgradable (upgrade_lock w.access))
  announces_upgrade :
      (i : ℕ)
      → mode_at w.threads i ≡ some upgradable
      → Step w (move w i upgrading (upgrade_announce w.access))
  enters_upgraded :
      (i : ℕ)
      → mode_at w.threads i ≡ some upgrading
      → upgraded_may_enter w.access ≡ true
      → Step w (move w i upgraded w.access)
  unlocks_upgradable :
      (i : ℕ)
      → mode_at w.threads i ≡ some upgradable
      → Step w (move w i idle (upgrade_unlock w.access).0)
  unlocks_upgraded :
      (i : ℕ)
      → mode_at w.threads i ≡ some upgraded
      → Step w (move w i idle (upgrade_unlock w.access).0)

pub data Reach (w : World) : World → Type 0 where
  here : Reach w w
  next : {u v : World} → Reach w u → Step u v → Reach w v

abbrev pub replicate : ℕ → Mode → List Mode
replicate zero m = []
replicate (suc n) m = m ∷ replicate n m

-- `n` threads and a fresh lock.
abbrev pub start : ℕ → World
start n = record { access = new_access; threads = replicate n idle }

abbrev pub weight : Mode → Mode → ℕ
weight idle idle = 1
weight reading reading = 1
weight write_waiting write_waiting = 1
weight writing writing = 1
weight upgradable upgradable = 1
weight upgrading upgrading = 1
weight upgraded upgraded = 1
weight _ _ = 0

-- How many threads are in a mode.
unfoldable pub count : Mode → List Mode → ℕ
count m [] = 0
count m (x ∷ xs) = weight m x + count m xs

pub count-set :
    (m old new : Mode) (ms : List Mode) (i : ℕ)
    → mode_at ms i ≡ some old
    → count m (set ms i new) + weight m old ≡ count m ms + weight m new
unfolding count
count-set m old new [] i e = cc
count-set m old new (x ∷ ms) zero e = ground (arith)
count-set m old new (x ∷ ms) (suc i) e = omega (arith, count-set m old new ms i e)
