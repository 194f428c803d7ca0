-- ===== src/Schedule.antt =====
-- src/minemon/schedule.h and schedule.cpp, class CSchedule: which peer is asked for which block or
-- transaction, and what has been received. Every operation takes the schedule and gives the new one
-- beside its result; `now` is what GetTime() returns. The types B and T stand for CBlock and
-- CTransaction, which the schedule stores and hands back.
pub mod Inv
pub mod Peer
pub mod State
pub mod Ops
pub mod Receive
pub mod Cancel
pub mod Known
pub mod Choose
pub mod Entry
pub mod Sound
pub mod Rounds
pub mod Requests
pub mod Run
