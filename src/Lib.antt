-- ===== src/Lib.antt =====
-- Routing daemons of the DES testbed: the AODV daemon (des-aodv/trunk/src), the link-state daemon
-- (des-lsr/trunk/src), and of the B.A.T.M.A.N. daemon (des-batman/trunk/src) the sliding windows
-- and the table of packet numbers. Each daemon is a program of its own, on libdessert.
--
-- AODV: A RREQ that floods the network leads through `aodv_handle_rreq` to `aodv_db_capt_rreq`,
-- which writes the route back to the originator; the RREP that answers it leads to
-- `aodv_db_capt_rrep`, which writes the route to the destination; a data packet asks
-- `aodv_db_getroute2dest` for its next hop; a RERR marks routes invalid. The routing table, like
-- most tables of the daemon, keeps its entries in a timeslot, which calls a purger for an entry
-- whose time has passed. What is to be done later, such as repeating a RREQ, stands in the
-- schedule table.
--
-- LSR: a HELLO makes the sender a neighbor; the neighbors are told to all in a TC, from which each
-- host builds the table of nodes; a periodic task runs Dijkstra's algorithm on the table and its
-- own neighbors, and the packets of the own system follow the next hops that it writes.
--
-- B.A.T.M.A.N.: a sliding window keeps the numbers that are less than its size behind the newest
-- one; the table of packet numbers keeps a window for each two hosts and drops it with its
-- timeslot.
--
-- The modules and the files that they model, below the directory of their daemon:
--   Aodv/Helper           helper.c, helper.h
--   Aodv/Timeslot         database/timeslot.c
--   Aodv/Schedule         database/schedule_table/aodv_st.c
--   Aodv/SendLog          database/rreq_log/rreq_log.c and database/rerr_log/rerr_log.c
--   Aodv/DataSeq          database/data_seq/ds.c
--   Aodv/PacketBuffer     database/packet_buffer/packet_buffer.c, and the loop of
--                         pipeline/aodv_forward.c that empties it
--   Aodv/Neighbor         database/neighbor_table/nt.c
--   Aodv/Rerr             pipeline/aodv_periodic.c: RERRs after a link break; in Receive,
--                         pipeline/aodv_pipeline.c: the handling of a RERR
--   Aodv/Series           pipeline/aodv_pipeline.c: the series of RREQs for a destination, as a
--                         step relation on their list, their owners and the schedule table; in
--                         Calls a thread that starts several in turn
--   Aodv/Control          pipeline/aodv_pipeline.c: the handlers of RREQs, RREPs and HELLOs
--   Aodv/Forward          pipeline/aodv_forward.c
--   Aodv/Gossip           pipeline/aodv_gossip.c
--   Aodv/Periodic         pipeline/aodv_periodic.c, without the RERRs; database/aodv_database.c: the
--                         clean-up
--   Aodv/PdrTracker       database/pdr_tracker/pdr.c
--   Aodv/Metric           pipeline/aodv_metric.c
--   Aodv/RoutingTable     database/routing_table/aodv_rt.c; in Duplicate the part of
--                         pipeline/aodv_pipeline.c that hands a RREQ to it
--   Aodv/Timeval          `struct timeval`; libdessert's functions on it are the record `Dessert`
--   Lsr                   des-lsr_items.h
--   Lsr/Dijkstra          des-lsr_dijkstra.c: the algorithm; in Paths the routes that it is about, in
--                         Invariant what holds between its rounds, in Trace and Shortest what it computes
--   Lsr/Logic             des-lsr_routinglogic.c: the tables, their tasks and callbacks, and the lock; in
--                         Cells and RoundTrip the bytes of a TC, in Valid and Near what the two tables
--                         keep, in Steps the calls in any order
--   Lsr/Packets           des-lsr_packethandler.c, and the callbacks of des-lsr_routinglogic.c that change
--                         no table
--   Batman/Window         database/routing_table/batman_sw.c, and the comparison of helper.c
--   Batman/Slot           database/timeslot.c of the B.A.T.M.A.N. daemon
--   Batman/RlSeq          database/rl_seq_t/rl_seq.c
-- A function has the name of the C function without its prefix (`aodv_db_rt_`, `aodv_db_sc_`,
-- `aodv_db_`, `hf_`). It takes the state that the C function changes and returns it with the
-- result; where C writes through a pointer and returns a truth value, it returns an Option or a
-- pair.
--
-- How the state is modelled:
--   - A hash table of uthash and a linked list of utlist are lists, in the order of insertion. Where
--     a component keeps the same elements in both, they are one list.
--   - An address in memory is a number, and an entry has the field `self` for its own. `brk` is the
--     number that the next allocation gives; none is given twice, so an address that is followed
--     after its entry was freed is seen, and sets `fault`.
--   - Numbers are natural numbers, with the wrap-around of the C type written out. Host addresses are
--     numbers, as `hf_mac_addr_to_uint64` makes them.
--   - The time of day and whether memory is given are arguments.
--   - libdessert is not part of the repository: the functions of it that are called are fields of
--     `Dessert` and `Exts`, with what its documentation says of them. The averaged signal
--     strength, the answers of the PDR tracker that a metric is made of, random numbers and the
--     settings of the command line are arguments as well.
--   - What several threads do to the series of RREQs is a relation: each call that holds the lock of
--     the list, or calls the schedule table, is one step, and the steps come in any order. Where a
--     thread starts series for several hosts, each start is such a step.
--   - The schedule table stands in the state of the neighbor table and in that of the series of RREQs;
--     a function reaches it through one of them.
--   - Where the code divides by zero, writes through NULL or follows an address of freed memory, and
--     the state has no `fault`, the result is `none`.
--   - In LSR the lock is a field of the state, and a call that waits for it for ever, or goes past the
--     memory that it was given, says so in its result. What memory holds that C does not write first,
--     as a new entry or one that was freed, is an argument, and may be anything.
--   - Dijkstra's algorithm has fuel: as many rounds as there are nodes, and as many steps on the way
--     back, are enough.
--   - Most loops walk a list, and are recursion on it. The loops that empty the packet buffer, fill a
--     RERR and send RERRs have fuel: one round more than there are packets, a round for each
--     destination and, where the destinations fit in an extension, two rounds are enough.
--
-- Not modelled: locks beyond the order of steps, log output, reports and the command line; the
-- start of the daemons; the routing table, the logs and the handlers of the B.A.T.M.A.N. daemon;
-- and the other daemons of the repository. The allocation of entries for the table of next hops,
-- whose failure aodv_rt.c asserts away, always gives memory. The key of a precursor is its
-- address, though aodv_rt.c:414 leaves the key in the caller's memory.
pub mod Common
pub mod Aodv
pub mod Lsr
pub mod Batman
