-- ===== src/Filter/Log.antt =====
-- QX-billing/qxc_logging.c: the queue of log records between the filter and the logger. It lies in
-- two regions of shared memory, /dev/qxc_log0 and /dev/qxc_log1, that `log_swap_log` exchanges.
pub mod Holds
pub mod Spec
use qnxstuff.Prelude.{
  ℕ, ◌+◌, ◌%◌, ◌^◌, Bool, true, false, not, ◌||◌, Option, none, some, List, [], ltb, ◌==◌,
  if◌then◌else◌, set, take,
}
use qnxstuff.Prelude.Buffers.{Half, first, second, Buffers, read, write}
use qnxstuff.Filter.Packet.{LogRecord}

-- The variables of the module. `active_log` and `shadow_log` point at the regions: the first is
-- /dev/qxc_log0.
pub record LogQueue : Type 0 where
  pub mem : Buffers (List LogRecord)
  pub active_log : Half
  pub shadow_log : Half
  pub active_count : ℕ
  pub shadow_count : ℕ
  pub log_limit : ℕ
  pub log_fd_num : ℕ

-- What the system calls of `log_init` gave: whether `shm_open` and `ftruncate` worked, and the
-- memory of the two `mmap`.
pub record Regions : Type 0 where
  pub opened_first : Bool
  pub opened_second : Bool
  pub truncated_first : Bool
  pub truncated_second : Bool
  pub mapped_first : Option (List LogRecord)
  pub mapped_second : Option (List LogRecord)

-- MAP_FAILED points at no records.
abbrev mapped : Option (List LogRecord) → List LogRecord
mapped none = []
mapped (some records) = records

abbrev with_maps : LogQueue → Regions → LogQueue
with_maps q r = record q {
  mem = record { in_first = mapped r.mapped_first; in_second = mapped r.mapped_second };
  active_log = first;
  shadow_log = second;
}

abbrev reset : LogQueue → ℕ → LogQueue
reset q num_slots = record q {
  active_count = 0;
  shadow_count = 0;
  log_limit = num_slots;
  log_fd_num = 0;
}

abbrev is_some : Option (List LogRecord) → Bool
is_some none = false
is_some (some records) = true

pub log_init : LogQueue → Regions → ℕ → ℕ × LogQueue
log_init q r num_slots =
    if not r.opened_first || not r.opened_second
    then (0, q)
    else if not r.truncated_first
    then (0, q)
    else if not r.truncated_second
    then (0, q)
    else if not (is_some r.mapped_first)
    then (0, with_maps q r)
    else if not (is_some r.mapped_second)
    then (0, with_maps q r)
    else (1, reset (with_maps q r) num_slots)

-- `atomic_add_value(&active_count, 1)`
abbrev pub counted_up : LogQueue → LogQueue
counted_up q = record q { active_count = (q.active_count + 1) % 2 ^ 32 }

abbrev pub with_record : LogQueue → ℕ → LogRecord → LogQueue
with_record q slot pkt = record q {
  mem = write q.active_log (set (read q.active_log q.mem) slot pkt) q.mem;
}

-- The two branches that follow the count.
unfoldable pub fill_slot : LogQueue → ℕ → LogRecord → LogQueue
fill_slot q slot pkt =
    if ltb slot q.log_limit then with_record q slot pkt else record q { active_count = q.log_limit }

-- The result says whether the record was stored.
unfoldable pub log_store_pkt : LogQueue → LogRecord → Bool × LogQueue
unfolding fill_slot
log_store_pkt q pkt =
    let slot = q.active_count in (ltb slot q.log_limit, fill_slot (counted_up q) slot pkt)

-- The results `*rgn` and `*cnt`, and the queue after the swap.
pub log_swap_log : LogQueue → ℕ × ℕ × LogQueue
log_swap_log q = (
  q.log_fd_num,
  q.active_count,
  record q {
    shadow_count = q.active_count;
    active_count = 0;
    active_log = q.shadow_log;
    shadow_log = q.active_log;
    log_fd_num = if q.log_fd_num == 1 then 0 else 1;
  },
)

-- The region that a number names.
abbrev pub region : ℕ → Half
region n = if n == 0 then first else second

-- What the logger reads from region `rgn` when it was told `cnt` (`qxl_main.c`).
pub collect : LogQueue → ℕ → ℕ → List LogRecord
collect q rgn cnt = take cnt (read (region rgn) q.mem)
