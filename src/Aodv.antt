-- ===== src/Aodv.antt =====
-- des-aodv/trunk/src: the AODV daemon.
pub mod Helper
pub mod Timeval
pub mod Timeslot
pub mod Schedule
pub mod SendLog
pub mod Metric
pub mod RoutingTable
pub mod Rerr
pub mod PacketBuffer
pub mod DataSeq
pub mod Neighbor
pub mod Series
pub mod PdrTracker
pub mod Forward
pub mod Gossip
pub mod Control
pub mod Periodic
