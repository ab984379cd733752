-- ===== src/Aodv/SendLog.antt =====
-- des-aodv/trunk/src/database/rreq_log/rreq_log.c and rerr_log/rerr_log.c: how many RREQs and RERRs
-- were sent in the last second. The two files differ in the names only; the state of either is a
-- `SendLog`.
pub mod Count
mod Tests
use des_routing_algorithms.Common.{ℕ, ◌+◌, Bool, true, false, Option, none, some, if◌then◌else◌}
use des_routing_algorithms.Aodv.Timeval.{Timeval, Dessert}
use des_routing_algorithms.Aodv.Timeslot.{
  Timeslot, timeslot_create, timeslot_purgeobjects, timeslot_addobject, inc32, dec32,
}

-- `rreq_log_ts`, `rreq_count` and `rreq_pseudo_pointer`. The pointer counts up and is never followed.
pub record SendLog : Type 0 where
  pub ts : Timeslot
  pub count : ℕ
  pub pseudo_pointer : ℕ

abbrev pub decrement_counter : Timeval → ℕ → ℕ → ℕ
decrement_counter timestamp object count = dec32 count

abbrev pub one_second : Timeval
one_second = record { tv_sec = 1; tv_usec = 0 }

unfoldable pub rl_init : Bool → Option SendLog
unfolding timeslot_create
rl_init malloc = elim (timeslot_create one_second malloc) [
  | none ↦ none
  | some ts ↦ some (record { ts = ts; count = 0; pseudo_pointer = 0 })
]

module _ ⦃d : Dessert⦄ where
  unfoldable pub rl_cleanup : SendLog → Timeval → SendLog
  rl_cleanup log timestamp =
      let (ts', count') = timeslot_purgeobjects decrement_counter log.ts timestamp log.count in
      record log { ts = ts'; count = count' }

  unfoldable pub putrreq : SendLog → Timeval → (now : Timeval) (malloc : Bool) → SendLog
  putrreq log timestamp now malloc =
      let (ts', count', added) =
        timeslot_addobject decrement_counter log.ts timestamp log.pseudo_pointer now malloc
          log.count in
      record {
        ts = ts';
        count = if added then inc32 count' else count';
        pseudo_pointer = log.pseudo_pointer + 1;
      }

  unfoldable pub getrreqcount : SendLog → Timeval → SendLog × ℕ
  getrreqcount log timestamp = let log' = rl_cleanup log timestamp in (log', log'.count)

  -- The functions of rerr_log.c.
  unfoldable pub putrerr : SendLog → Timeval → (now : Timeval) (malloc : Bool) → SendLog
  putrerr log timestamp now malloc = putrreq log timestamp now malloc

  unfoldable pub getrerrcount : SendLog → Timeval → SendLog × ℕ
  getrerrcount log timestamp = getrreqcount log timestamp
