-- ===== src/Lib.antt =====
-- The parts of Mamio, a peer-to-peer chain node in C++, that carry its own logic and that need no
-- library beyond the standard containers. Every definition is a translation of the code that its
-- file names; numbers are natural numbers with the wrap-around of the machine written out where
-- the code relies on it.
--
-- How the parts interact. The network channel (src/minemon/netchn.cpp) hears from its peers which
-- blocks and transactions they have, and asks the scheduler (CSchedule) what to request from whom.
-- The scheduler keeps an inventory of each peer (CInvPeer) and two pools of orphans (COrphan). The
-- endpoint manager decides by the status of an address (CAddressStatus) whether it may connect.
-- The fork manager (CForkManager) learns from the dispatcher which blocks came, and says which
-- forks to follow. Blocks, hashes and targets are numbers of many words (base_uint). The text of
-- an address is base 32 with a checksum. The endpoint manager owns the node manager
-- (CNodeManager), which says which node to try next and when, and keeps a status for each address;
-- it bans, rewards and closes. The transaction pool (CTxPool) has a view of each fork
-- (CTxPoolView), which knows what is spent by what, follows the chain and arranges the transactions
-- of the next block. Caches and locks guard the state that threads share.
--
-- Files and sources:
--   Orphan                src/minemon/schedule.cpp, COrphan: AddNew, Remove, both GetNext, RemoveNext,
--                         RemoveBranch. The multimap is a list of pairs in key order.
--   Schedule/Inv          src/network/proto.h, CInv.
--   Schedule/Peer         src/minemon/schedule.h, CInvPeer.
--   Schedule/State        src/minemon/schedule.h, CInvState and the fields and constants of CSchedule.
--   Schedule/Ops          src/minemon/schedule.cpp, Exists to RemoveInv, and RemoveOrphan.
--   Schedule/Receive      ReceiveBlock to InvalidateTx.
--   Schedule/Known        the two loops of ScheduleKnownInv, one function for each round.
--   Schedule/Choose       ScheduleKnownInv, ScheduleBlockInv and ScheduleTxInv.
--   Schedule/Cancel       CancelAssignedInv to SetDelayedClear.
--   Schedule/Run          all calls that change the schedule, as data, and histories of them.
--   Base32, Crc24q        src/crypto/base32.cpp and crc24q.cpp.
--   RwLock                src/xengine/rwlock.h: CRWAccess, and threads that use it as steps.
--   Cache                 src/xengine/cache.h: CCache.
--   Uint256               src/crypto/uint256.h: base_uint, as its words with the lowest first;
--                         Uint256/Shift has its shifts, Uint256/Divide its division,
--                         Uint256/Compact the compact form of uint256.
--   TxPool                src/common/transaction.h: what the pool reads of transactions and outputs.
--   TxPool/View           src/minemon/txpool.h, CTxPoolView: its links and mapSpent. TxPool/Index is
--                         AddTxIndex and AddNew, TxPool/Invalidate InvalidateSpent and TxPool/Arrange
--                         ArrangeBlockTx.
--   TxPool/Caches         CTxCache; TxPool/CertTxs is CCertTxDestCache.
--   TxPool/Calls          src/minemon/txpool.cpp, CTxPool: Push, Pop and what they call; the block chain
--                         and the core protocol are the record Chain. TxPool/Confirm and TxPool/Sync
--                         have SynchronizeBlockChain, TxPool/Load LoadData, TxPool/Queries what changes
--                         nothing but the map of views.
--   AddressStatus         src/xengine/peernet/epmngr.cpp: CConnAttempt and CAddressStatus.
--   NodeManager           src/xengine/peernet/nodemngr.h and .cpp: CNode and CNodeManager; NodeManager/Run
--                         has its calls as data.
--   EndpointManager       src/xengine/peernet/epmngr.h and .cpp: CEndpointManager, the map of addresses
--                         in Addresses and the calls in Calls; EndpointManager/Run has its calls as
--                         data.
--   ForkManager           src/minemon/forkmanager.h and .cpp: the schedules and the index; the calls
--                         that follow forks in Calls. The block chain is the record BlockChain.
--   Core                  src/minemon/core.cpp: rewards and the limits of a pledge, with the constants
--                         of src/common/param.h; Core/Target has GetProofOfWorkTarget and
--                         GetBlockTrust, with the configured numbers of bits as arguments.
--   Http                  src/xengine/http/httputil.cpp: percent encoding, request queries and status
--                         lines; Http/Text is what they use of std::string.
--   Base                  what the files share; OrdMap and OrdSet are std::map and std::set as lists
--                         in key order, Int the signed integers.
--   Examples              the theorems at concrete inputs, and tests.
-- A child of a file (Orphan/Branch of Orphan) holds proofs about it.
--
-- Bounds and fuel. RemoveBranch runs on fuel: it gets the length of the vector and of the multimap,
-- which is enough because each round takes one hash, and each hash is added when one of the pairs
-- is taken out. The loops of RemoveInactiveNodes and FetchOutBound run on fuel as well, and `none`
-- says that they have not ended; so do the walks of the fork manager along the parents of a fork,
-- and the loops over the periods of the reward, for which the height is fuel enough. The loops of
-- the transaction pool run on fuel too: enough is one round for an output and two for each
-- transaction of a view, and for AddNew the weight of a transaction, where each weighs as much as
-- all that it spends from, each with one more. Every other loop is structural. The counts and times
-- of the scheduler and of an address are far below 2 ^ 31 and 2 ^ 63 and are not wrapped; the words
-- of base_uint and the checksum are.
--
-- Assumptions. GetTime() is an argument, read once for each call. The type of an inventory entry is
-- MSG_TX or MSG_BLOCK. CBlock and CTransaction are type parameters of the scheduler, which stores
-- and returns them only. The hash of a transaction is a parameter of the pool; a pointer of a view
-- into mapTx is the hash that leads to the entry, and an entry that is not there is read as none.
-- Amounts are within the range of int64. Block heights are below 2 ^ 31. A char above 127 is an unsigned byte. Logging is left out.
-- A thread that waits on a condition variable may wake at any time; what an unlock notifies is a
-- returned value.
--
-- Not modelled: the hexadecimal text of base_uint; the headers and dates of CHttpUtil; the saving
-- and filtering of the transaction pool; the verification of blocks and transactions; the network
-- channel, the block chain and its storage, the wallet, RPC and the templates, which rest on what
-- is above; sockets, streams and files; leveldb and snappy, which are copies of other projects'
-- libraries.
pub mod Base
pub mod Orphan
pub mod Schedule
pub mod Crc24q
pub mod Base32
pub mod RwLock
pub mod Cache
pub mod TxPool
pub mod Uint256
pub mod AddressStatus
pub mod Http
pub mod NodeManager
pub mod Core
pub mod ForkManager
pub mod EndpointManager
mod Examples
