-- ===== src/Wmi.antt =====
-- wmi.c: commands to the firmware and events from it, by the mailbox rings of the card.
pub mod Addr
pub mod Send
pub mod Delivery
pub mod Recv
pub mod Events
mod Tests
