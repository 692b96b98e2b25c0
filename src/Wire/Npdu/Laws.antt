-- ===== src/Wire/Npdu/Laws.antt =====
-- `DecodeNPDU` on any bytes, and on what the two encoders write.
use bacnet_go.Base.{ℕ, ◌+◌, ◌≤◌, ◌≡◌, List, length, length-drop, drop, arith}
use bacnet_go.Go.{Ensures, index, slice, slice_from, uint16}
use bacnet_go.Wire.Npdu.{Npdu, dest_part, source_part, message_part, decode_npdu}

-- The part keeps the version and the control byte, and does not run past the end.
abbrev Advances : List ℕ → Npdu → ℕ → Npdu × ℕ → Type 0
Advances bytes n offset (m, end) =
    (offset ≤ end) × (end ≤ length bytes) × (m.control ≡ n.control) × (m.version ≡ n.version)

dest_part-Advances :
    (bytes : List ℕ) (n : Npdu) (offset : ℕ)
    → offset ≤ length bytes
    → Ensures (dest_part bytes n offset) (Advances bytes n offset)
unfolding dest_part index slice slice_from uint16
dest_part-Advances bytes n offset h = ground (arith, length-drop offset bytes)

source_part-Advances :
    (bytes : List ℕ) (n : Npdu) (offset : ℕ)
    → offset ≤ length bytes
    → Ensures (source_part bytes n offset) (Advances bytes n offset)
unfolding source_part index slice slice_from uint16
source_part-Advances bytes n offset h = ground (arith, length-drop offset bytes)

message_part-Advances :
    (bytes : List ℕ) (n : Npdu) (offset : ℕ)
    → offset ≤ length bytes
    → Ensures (message_part bytes n offset) (Advances bytes n offset)
unfolding message_part index slice slice_from uint16
message_part-Advances bytes n offset h = ground (arith, length-drop (offset + 1) bytes)

-- What a decoded header says of its bytes: the offset is where the payload starts.
abbrev pub IsDecoded : List ℕ → Npdu × ℕ → Type 0
IsDecoded bytes (n, offset) =
    (2 ≤ offset) × (offset ≤ length bytes) × (n.version ≡ 1) × (n.payload ≡ drop offset bytes)

-- `DecodeNPDU` does not panic on any bytes; on success the version is 1 and the payload is the
-- rest of the bytes behind the offset that it returns.
pub decode_npdu-IsDecoded : (bytes : List ℕ) → Ensures (decode_npdu bytes) (IsDecoded bytes)
unfolding decode_npdu index slice_from
decode_npdu-IsDecoded bytes =
    grind (arith, dest_part-Advances, source_part-Advances, message_part-Advances)
