-- ===== src/Etw/Payload.antt =====
-- pkg/etw/eventdata.go: the data of an event. A signed value is its bit pattern.
use go_winio.Base.{ℕ, List, [], ◌∷◌, ◌++◌}
use go_winio.Base.Word.{le16, le32, le64}

pub record EventData : Type 0 where
  pub buffer : List ℕ

abbrev append : EventData → List ℕ → EventData
append ed bytes = record { buffer = ed.buffer ++ bytes }

pub to_bytes : EventData → List ℕ
to_bytes ed = ed.buffer

unfoldable pub write_string : EventData → List ℕ → EventData
write_string ed s = append (append ed s) (0 ∷ [])

-- `writeInt8` and `writeUint8`
unfoldable pub write_uint8 : EventData → ℕ → EventData
write_uint8 ed v = append ed (v ∷ [])

-- `writeInt16` and `writeUint16`
unfoldable pub write_uint16 : EventData → ℕ → EventData
write_uint16 ed v = append ed (le16 v)

-- `writeInt32` and `writeUint32`
unfoldable pub write_uint32 : EventData → ℕ → EventData
write_uint32 ed v = append ed (le32 v)

-- `writeInt64` and `writeUint64`
unfoldable pub write_uint64 : EventData → ℕ → EventData
write_uint64 ed v = append ed (le64 v)

-- A FILETIME has a low and a high word.
unfoldable pub write_filetime : EventData → ℕ → ℕ → EventData
write_filetime ed low high = append ed (le32 low ++ le32 high)
