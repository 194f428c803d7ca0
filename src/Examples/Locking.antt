-- ===== src/Examples/Locking.antt =====
-- src/xengine/rwlock.h, three threads: one reads, one waits to write, and the writer enters.
use mamio.Base.{◌+◌, ◌≡◌, refl, ◌⊎◌}
use mamio.RwLock.{read_lock, read_unlock, write_announce, write_lock, new_access}
use mamio.RwLock.Threads.{
  idle, reading, write_waiting, writing, upgraded, World, Reach, start, count, here, next,
  locks_read, unlocks_read, announces_write, locks_write, move,
}
use mamio.RwLock.Exclusion.{exclusion, counters}

abbrev reads : World
reads = move (start 3) 0 reading (read_lock new_access)

abbrev waits : World
waits = move reads 1 write_waiting (write_announce reads.access)

abbrev leaves : World
leaves = move waits 0 idle (read_unlock waits.access).0

abbrev writes : World
writes = move leaves 1 writing (write_lock leaves.access)

reads-Reach : Reach (start 3) reads
reads-Reach = next here (locks_read 0 refl refl)

waits-Reach : Reach (start 3) waits
waits-Reach = next reads-Reach (announces_write 1 refl)

writes-Reach : Reach (start 3) writes
unfolding read_lock write_announce read_unlock
writes-Reach = next (next waits-Reach (unlocks_read 0 refl)) (locks_write 1 refl refl)

exclusion_example :
    (count writing writes.threads + count upgraded writes.threads ≡ 0)
    ⊎ ((count writing writes.threads + count upgraded writes.threads ≡ 1)
        × (count reading writes.threads ≡ 0))
exclusion_example = exclusion 3 writes writes-Reach

counters_example :
    (waits.access.read ≡ count reading waits.threads)
    × (waits.access.write ≡ count write_waiting waits.threads + count writing waits.threads)
counters_example = counters 3 waits waits-Reach
