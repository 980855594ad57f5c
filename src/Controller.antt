-- ===== src/Controller.antt =====
-- controller_handlers.c: the state of the controller and its handlers. The queues are the lists of their
-- jobs from head to tail, which Scheduler/Queue implements by linked nodes. What the operating system
-- answers while a message is handled comes in with the message. Controller/Linked has the handlers on nodes.
pub mod State
pub mod Status
pub mod Handlers
pub mod Messages
pub mod Invariant
pub mod Order
pub mod Shutdown
pub mod Configure
pub mod Conservation
pub mod Grants
pub mod Load
pub mod Drain
pub mod Remembered
pub mod Main
pub mod Queues
pub mod Linked
