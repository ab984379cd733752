-- ===== src/Aodv/RoutingTable.antt =====
-- des-aodv/trunk/src/database/routing_table/aodv_rt.c: the routes, and the table of next hops.
-- An entry lies at the address `self`; `brk` is the address that `malloc` gives next. Following an
-- address where no entry lies any more sets `fault`, and the run goes on without the access.
-- The arguments `now` and `malloc` are the time of day and whether there is memory.
pub mod Defs
pub mod Capture
pub mod Query
pub mod Breaks
pub mod Duplicate
pub mod Purge
pub mod Valid
pub mod Create
pub mod Routes
pub mod Forwarding
pub mod Hops
pub mod Links
pub mod Dangling
mod Tests
