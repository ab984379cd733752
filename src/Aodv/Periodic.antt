-- ===== src/Aodv/Periodic.antt =====
-- des-aodv/trunk/src/pipeline/aodv_periodic.c: the periodic tasks but for the RERRs, and the clean-up
-- of all tables of des-aodv/trunk/src/database/aodv_database.c. Memory is given. The schedule table
-- is reached through the series here.
pub mod Active
mod Tests
use des_routing_algorithms.Common.{
  ℕ, ◌+◌, ◌-◌, ◌%◌, ◌^◌, ℤ, Bool, true, false, Option, none, some, List, [], ◌∷◌, ◌==◌,
  if◌then◌else◌, is_pos,
}
use des_routing_algorithms.Aodv.Timeval.{Timeval, Dessert}
use des_routing_algorithms.Aodv.Schedule.{Schedule, popschedule, addschedule}
use des_routing_algorithms.Aodv.DataSeq.{ds_cleanup}
use des_routing_algorithms.Aodv.PacketBuffer.{pb_cleanup}
use des_routing_algorithms.Aodv.RoutingTable.Defs.{Rt}
use des_routing_algorithms.Aodv.RoutingTable.Capture.{rt_cleanup}
use des_routing_algorithms.Aodv.RoutingTable.Breaks.{
  LinkBreak, get_active_routes, get_warn_endpoints,
}
use des_routing_algorithms.Aodv.Neighbor.{
  Nt, nt_cleanup, update_rssi, sc_send_out_rerr, sc_update_rssi, sub_ℤ,
}
use des_routing_algorithms.Aodv.PdrTracker.{Pdr, pdr_cleanup}
use des_routing_algorithms.Aodv.Rerr.{Exts, Rerr, send_out_rerr}
use des_routing_algorithms.Aodv.Series.{State, sc_repeat_rreq, take_task, ttl_start, ttl_max}
use des_routing_algorithms.Aodv.Series.Calls.{RreqCall}
use des_routing_algorithms.Aodv.Forward.{Node}
use des_routing_algorithms.Aodv.Control.{Router}
use des_routing_algorithms.Aodv.Control.Hello.{HelloPacket}

-- AODV_SC_SEND_OUT_RWARN
abbrev pub sc_send_out_rwarn : ℕ
sc_send_out_rwarn = 4

-- The HELLO that is sent to all neighbors, and `seq_num_hello` after it.
unfoldable pub send_hello : (defsrc broadcast hello_interval seq_num_hello : ℕ) → HelloPacket × ℕ
send_hello defsrc broadcast hello_interval seq_num_hello = (
  record {
    prev_hop = defsrc;
    next_hop = broadcast;
    ttl = 2;
    hello_seq = seq_num_hello;
    hello_interval = hello_interval;
    hello_rcvd_count = 0;
  },
  (seq_num_hello + 1) % 2 ^ 16,
)

-- The calls of `aodv_send_rreq` for the hosts of the list, which the thread does one after the other
-- as `Calls` has it: each takes the lock for itself, and other threads go on between them.
unfoldable pub send_rreqs : (ring_search : Bool) → List LinkBreak → List RreqCall
send_rreqs ring_search [] = []
send_rreqs ring_search (dest ∷ rest) =
    (dest.host, if ring_search then ttl_start else ttl_max) ∷ send_rreqs ring_search rest

abbrev pub with_series : Router → State → Router
with_series r st = record r { node = record (r.node) { series = st } }

unfoldable pub periodic_send_rreq : (ring_search : Bool) → Router → List RreqCall
periodic_send_rreq ring_search r = send_rreqs ring_search (get_active_routes r.node.rt)

module _ ⦃d : Dessert⦄ where
  unfoldable pub db_cleanup : Router → Pdr → Timeval → Router × Pdr
  db_cleanup r pdr timestamp = (
    record r {
      nt = nt_cleanup true r.nt timestamp;
      node = record (r.node) {
        data_seq = ds_cleanup r.node.data_seq timestamp;
        rt = rt_cleanup r.node.rt timestamp;
        buffer = pb_cleanup r.node.buffer timestamp;
      };
    },
    pdr_cleanup pdr timestamp,
  )

  module _ (x : Exts) (ifaces : List ℕ) (ring_search : Bool) (threshold : ℤ)
      (timestamp now : Timeval) where
    -- What is done for a task, but for a RREQ that is repeated: the tables, the RERRs that were sent,
    -- and the calls for RREQs that follow. `avg_rssi` is libdessert's average for the neighbor. The
    -- RERRs have fuel.
    unfoldable pub execute_task :
        ℕ → (avg_rssi : ℤ) → Schedule → Router → Option (Router × List Rerr × List RreqCall)
    execute_task fuel avg_rssi t r =
        let (tables', sent) =
          send_out_rerr x ifaces timestamp now fuel r.node.rt.tables r.node.rerr_log t.ether_addr in
        let (warned, endpoints) = get_warn_endpoints r.node.rt.tables t.ether_addr in
        let (nt', diff) = update_rssi r.nt t.ether_addr t.schedule_param avg_rssi in
        let tasks' =
          (addschedule r.node.series.tasks timestamp t.ether_addr sc_send_out_rwarn 0 true).0 in
        if t.schedule_id == sc_send_out_rerr
        then elim sent [
          | none ↦ none
          | some (rerrs, log') ↦ some (
            record r {
              node = record (r.node) {
                rt = record (r.node.rt) { tables = tables' };
                rerr_log = log';
              };
            },
            rerrs,
            [],
          )
        ]
        else if t.schedule_id == sc_send_out_rwarn
        then some (
          record r { node = record (r.node) { rt = record (r.node.rt) { tables = warned } } },
          [],
          elim endpoints [ none ↦ [] | some hosts ↦ send_rreqs ring_search hosts ],
        )
        else if t.schedule_id == sc_update_rssi
        then some (
          record r {
            nt = nt';
            node = record (r.node) {
              series =
                  if is_pos (sub_ℤ diff threshold)
                  then record (r.node.series) { tasks = tasks' }
                  else r.node.series;
            };
          },
          [],
          [],
        )
        else some (r, [], [])

    -- One task that is due is taken. One that is to repeat a RREQ leaves an owner of its series.
    unfoldable pub scexecute :
        ℕ → (avg_rssi : ℤ) → Router → Option (Router × List Rerr × List RreqCall)
    scexecute fuel avg_rssi r =
        let r' = with_series r (take_task timestamp r.node.series) in
        elim (popschedule r.node.series.tasks timestamp).1 [
          | none ↦ some (r, [], [])
          | some t ↦
              if t.schedule_id == sc_repeat_rreq
              then some (r', [], [])
              else execute_task fuel avg_rssi t r'
        ]
