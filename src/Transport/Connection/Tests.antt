-- ===== src/Transport/Connection/Tests.antt =====
-- The theorems on connections of transport/connection.c at a small table.
use mathlib.Core.Option
use mlvm.Base.{ℕ, ◌<◌, ◌≡◌, refl, true, false, Option, none, some, [], ◌==◌, if◌then◌else◌, arith}
use mlvm.Transport.Frame.{Pool}
use mlvm.Transport.Timer
use mlvm.Transport.Timer.{Timers}
use mlvm.Transport.Connection.{
  Net, Con, SockAddr, c_free, c_active, c_locked, no_address, con_new, con_free, con_unlock,
  lookup_con, hash, max_connection,
}
use mlvm.Transport.Connection.Locks.{IsReleased}
use mlvm.Transport.Connection.Probe.{Hashed, hash-Ends, probe}
use mlvm.Transport.Connection.Again.{Finds, lookup_con-con_new, lookup_con-con_free}
use mlvm.Transport.Connection.Keeper.{sigalrm_cleanup, cleanup_period}
use mlvm.Transport.Connection.Keeper.Cleanup.{cleaned, sigalrm_cleanup-cleaned}
use mlvm.Transport.Connection.Socket.{make_con}
use mlvm.Transport.Connection.Socket.Made.{Made, make_con-makes}

abbrev pool : Pool
pool = record { free_frame = []; counter = 0; upper = 1024; lower = 0; mallocs = [] }

abbrev free_con : Con
free_con = record {
  status = c_free;
  fd = some 0;
  peer = no_address;
  local = no_address;
  frames = [];
  timestamp = 0;
}

-- A host whose connections start at entry 7, and one whose start at entry 8.
abbrev host : SockAddr
host = record { s_addr = 262; sin_port = 4000 }

abbrev other_host : SockAddr
other_host = record { s_addr = 8; sin_port = 4000 }

abbrev busy : Con
busy = record free_con { status = c_locked; fd = some 5; peer = other_host }

abbrev old : Con
old = record free_con { status = c_active; fd = some 6; peer = host; timestamp = 100 }

-- Entry 7 is locked for another host, and entry 8 is an old connection.
abbrev table : Net
table = record {
  hash_table = λ i. if i == 7 then busy else if i == 8 then old else free_con;
  held = λ i. false;
  pool = pool;
  closed = [];
}

abbrev empty : Net
empty = record table { hash_table = λ i. free_con }

table-IsReleased : IsReleased table
table-IsReleased i = refl

abbrev no_timers : Timers (Unit {0})
no_timers = record { timer_tlb = []; it_value = 0 }

-- The new connection to the host is entry 9, behind the old one.
con_new_run : Option.map (λ r. r.0) (con_new host table) ≡ some (some 9)
unfolding con_new hash
con_new_run = refl

hash-Ends_example :
    (r : Option ℕ × Net) × (hash 262 c_active table ≡ some r) × Hashed 262 c_active table r
hash-Ends_example = hash-Ends 262 c_active table table-IsReleased

lookup_con-con_free_example :
    (s1 : Net) × (con_free (probe 262 0) table ≡ some s1) × (lookup_con host s1 ≡ some (none, s1))
lookup_con-con_free_example =
    lookup_con-con_free host table 0 table-IsReleased (omega arith)
      (λ j l. absurd (omega (arith, l))) refl

sigalrm_cleanup-cleaned_example :
    (s' : Net) × (sigalrm_cleanup tt 900 (λ d. false) 2000 2000 2000 1 table no_timers
      ≡ some (s', (Timer.arm 2000 2000 1 (some cleanup_period) (some tt) 0 no_timers).1))
    × IsReleased s'
    × ((j : ℕ)
        → j < max_connection
        → s'.hash_table j ≡ cleaned 900 (λ d. false) 2000 (table.hash_table j))
sigalrm_cleanup-cleaned_example =
    sigalrm_cleanup-cleaned 900 (λ d. false) 2000 tt 2000 2000 1 table no_timers table-IsReleased

make_con-makes_example :
    (r : Option ℕ) × (s' : Net) × (make_con (some 11) true other_host none host table
      ≡ some (r, s'))
    × IsReleased s'
    × Made (some 11) true other_host host table r s'
make_con-makes_example = make_con-makes (some 11) true other_host host table table-IsReleased

-- The table with a new connection, as `con_new` leaves it.
abbrev with_host : Net
with_host = record empty {
  hash_table = λ j. if j == 7 then record free_con { status = c_locked; peer = host } else free_con;
  held = λ j. if j == 7 then false else if j == 7 then true else false;
}

con_new-empty_run : con_new host empty ≡ some (some 7, with_host)
unfolding con_new hash
con_new-empty_run = refl

lookup_con-con_new_example :
    (s2 : Net) × (con_unlock 7 with_host ≡ some (true, s2)) × Finds host (lookup_con host s2)
lookup_con-con_new_example = lookup_con-con_new host empty 7 with_host (λ i. refl) con_new-empty_run
