-- ===== src/Etw.antt =====
-- pkg/etw: what describes an event and holds its data. A buffer is the list of its bytes; a
-- `bytes.Buffer` accepts every write.
use go_winio.Base.{ℕ, ◌+◌, ◌*◌, ◌/◌, ◌%◌, ◌^◌, bit_or}
pub mod Metadata
pub mod Payload
pub mod Options
pub mod Provider

-- eventdescriptor.go
pub record EventDescriptor : Type 0 where
  pub id : ℕ
  pub version : ℕ
  pub channel : ℕ
  pub level : ℕ
  pub opcode : ℕ
  pub task : ℕ
  pub keyword : ℕ

abbrev channel_trace_logging : ℕ
channel_trace_logging = 11

abbrev level_verbose : ℕ
level_verbose = 5

pub new_event_descriptor : EventDescriptor
new_event_descriptor = record {
  id = 0;
  version = 0;
  channel = channel_trace_logging;
  level = level_verbose;
  opcode = 0;
  task = 0;
  keyword = 0;
}

-- The two halves have no bit in common, so the source's `|` is `+`.
pub identity : EventDescriptor → ℕ
identity ed = (ed.version * 2 ^ 16 % 2 ^ 32) + ed.id

pub set_identity : EventDescriptor → ℕ → EventDescriptor
set_identity ed n = record ed { id = n % 2 ^ 16; version = n / 2 ^ 16 % 2 ^ 8 }
