-- ===== src/Tx.antt =====
-- txrx.c: the Tx path, from a frame of the network stack to the descriptors of a Tx ring and back.
pub mod Desc
pub mod Send
mod Slots
mod Fill
mod Unmap
pub mod Ends
pub mod Sends
pub mod Complete
mod Scan
mod Clear
mod Release
pub mod Completes
pub mod Free
pub mod Tso
mod Holds
mod Pieces
mod Segment
mod Header
pub mod Segments
pub mod Xmit
pub mod Xmits
mod Tests
