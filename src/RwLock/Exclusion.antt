-- ===== src/RwLock/Exclusion.antt =====
-- Mutual exclusion of the lock: kept by every step, so true in every reachable state.
use mamio.Base.{
  ℕ, zero, suc, ◌+◌, ◌<◌, ◌≡◌, refl, Bool, true, false, List, some, arith, set, ◌⊎◌, inl, inr, ◌==◌,
  Bool-cases,
}
use mamio.RwLock.{
  read_lock, read_unlock, write_announce, write_lock, write_unlock, upgrade_lock, upgrade_announce,
  upgrade_unlock,
}
use mamio.RwLock.Threads.{
  Mode, idle, reading, write_waiting, writing, upgradable, upgrading, upgraded, World, Step, Reach,
  locks_read, unlocks_read, announces_write, locks_write, unlocks_write, locks_upgrade,
  announces_upgrade, enters_upgraded, unlocks_upgradable, unlocks_upgraded, here, next, mode_at,
  start, replicate, weight, count, count-set,
}

abbrev bit : Bool → ℕ
bit true = 1
bit false = 0

-- The counters and flags, in terms of the threads.
record Inv (w : World) : Type 0 where
  readers : w.access.read ≡ count reading w.threads
  writers : w.access.write ≡ count write_waiting w.threads + count writing w.threads
  holders :
      bit w.access.exclusive
      ≡ count writing w.threads
        + count upgradable w.threads
        + count upgrading w.threads
        + count upgraded w.threads
  upgraders : bit w.access.upgraded ≡ count upgrading w.threads + count upgraded w.threads
  exclusive_write : 0 < count writing w.threads → count reading w.threads ≡ 0
  exclusive_upgrade : 0 < count upgraded w.threads → count reading w.threads ≡ 0

-- How a move of one thread changes the counts.
record Moves (old new : Mode) (ms ms' : List Mode) : Type 0 where
  by_reading : count reading ms' + weight reading old ≡ count reading ms + weight reading new
  by_write_waiting :
      count write_waiting ms' + weight write_waiting old
      ≡ count write_waiting ms + weight write_waiting new
  by_writing : count writing ms' + weight writing old ≡ count writing ms + weight writing new
  by_upgradable :
      count upgradable ms' + weight upgradable old ≡ count upgradable ms + weight upgradable new
  by_upgrading :
      count upgrading ms' + weight upgrading old ≡ count upgrading ms + weight upgrading new
  by_upgraded : count upgraded ms' + weight upgraded old ≡ count upgraded ms + weight upgraded new

moves :
    (old new : Mode) (ms : List Mode) (i : ℕ)
    → mode_at ms i ≡ some old
    → Moves old new ms (set ms i new)
moves old new ms i e = record {
  by_reading = count-set reading old new ms i e;
  by_write_waiting = count-set write_waiting old new ms i e;
  by_writing = count-set writing old new ms i e;
  by_upgradable = count-set upgradable old new ms i e;
  by_upgrading = count-set upgrading old new ms i e;
  by_upgraded = count-set upgraded old new ms i e;
}

step-Inv : {w v : World} → Step w v → Inv w → Inv v
unfolding read_lock read_unlock write_announce write_lock write_unlock upgrade_lock upgrade_announce
    upgrade_unlock
step-Inv {w} (locks_read i e g) v = ground (arith, moves idle reading w.threads i e)
step-Inv {w} (unlocks_read i e) v = ground (arith, moves reading idle w.threads i e)
step-Inv {w} (announces_write i e) v = ground (arith, moves idle write_waiting w.threads i e)
step-Inv {w} (locks_write i e g) v = ground (arith, moves write_waiting writing w.threads i e)
step-Inv {w} (unlocks_write i e) v = ground (arith, moves writing idle w.threads i e)
step-Inv {w} (locks_upgrade i e g) v = ground (arith, moves idle upgradable w.threads i e)
step-Inv {w} (announces_upgrade i e) v = ground (arith, moves upgradable upgrading w.threads i e)
step-Inv {w} (enters_upgraded i e g) v = ground (arith, moves upgrading upgraded w.threads i e)
step-Inv {w} (unlocks_upgradable i e) v = ground (arith, moves upgradable idle w.threads i e)
step-Inv {w} (unlocks_upgraded i e) v = ground (arith, moves upgraded idle w.threads i e)

start-count : (m : Mode) (n : ℕ) → weight m idle ≡ 0 → count m (replicate n idle) ≡ 0
unfolding count
start-count m zero h = refl
start-count m (suc n) h = omega (arith, start-count m n h)

start-Inv : (n : ℕ) → Inv (start n)
start-Inv n = ground (
  arith,
  start-count reading n refl,
  start-count write_waiting n refl,
  start-count writing n refl,
  start-count upgradable n refl,
  start-count upgrading n refl,
  start-count upgraded n refl,
)

reach-Inv : {w v : World} → Reach w v → Inv w → Inv v
reach-Inv here h = h
reach-Inv (next r st) h = step-Inv st (reach-Inv r h)

held :
    (w : World)
    → Inv w
    → (count writing w.threads + count upgraded w.threads ≡ 0)
      ⊎ ((count writing w.threads + count upgraded w.threads ≡ 1) × (count reading w.threads ≡ 0))
held w v = elim (Bool-cases (count writing w.threads + count upgraded w.threads == 0)) [
  | inl h ↦ inl (ground arith)
  | inr h ↦ inr (ground arith)
]

-- In every state that any number of threads can reach with a fresh lock, either no thread holds the
-- lock for writing or upgraded to writing, or exactly one does and no thread reads.
pub exclusion :
    (n : ℕ) (w : World)
    → Reach (start n) w
    → (count writing w.threads + count upgraded w.threads ≡ 0)
      ⊎ ((count writing w.threads + count upgraded w.threads ≡ 1) × (count reading w.threads ≡ 0))
exclusion n w r = held w (reach-Inv r (start-Inv n))

-- In every state that any number of threads can reach with a fresh lock, the counter of readers is
-- the number of threads that read, and the counter of writers is the number that wait for the lock
-- or hold it.
pub counters :
    (n : ℕ) (w : World)
    → Reach (start n) w
    → (w.access.read ≡ count reading w.threads)
      × (w.access.write ≡ count write_waiting w.threads + count writing w.threads)
counters n w r = let v = reach-Inv r (start-Inv n) in (v.readers, v.writers)
