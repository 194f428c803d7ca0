-- ===== src/EndpointManager.antt =====
-- src/xengine/peernet/epmngr.h and epmngr.cpp, class CEndpointManager: the status of each address
-- beside the node manager. The map of statuses is a list in key order, `none` means that a call has
-- not ended, `now` is GetTime(). operator[] of the map adds a new status where there was none.
pub mod Addresses
pub mod Calls
pub mod Clean
pub mod Fetch
pub mod Run
pub mod Barred
pub mod Ban
pub mod AcceptBan
pub mod FetchBan
