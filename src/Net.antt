-- ===== src/Net.antt =====
-- The buffers between the daemon and its uplink: read_chunk, read_line, send_raw and flush_sendq
-- (src/net.c), and the loop of child.c that reads all lines. read, send and vsnprintf are the
-- system's: what a call gives or takes is an argument.
pub mod Chunk
pub mod Framed
pub mod Lines
pub mod Sendq
use child.Prelude.{
  ℕ, zero, suc, ◌+◌, ◌-◌, Bool, true, false, ◌||◌, Option, none, some, List, [], ◌∷◌, ◌++◌, ◌==◌,
  leb, ltb, if◌then◌else◌, length,
}
use child.Prelude.Maybe.{◌>>=◌}
use child.Strings.{Str, strncpy}

abbrev pub chunksize : ℕ
chunksize = 65536

abbrev pub sendqsize : ℕ
sendqsize = 65536

abbrev pub is_eol : ℕ → Bool
is_eol c = c == 10 || c == 13

-- The last test of read_line: a second end of line, right behind the first, is skipped.
unfoldable pub skip_eol : Str → Str
skip_eol [] = []
skip_eol (c ∷ s) = if is_eol c then s else c ∷ s

unfoldable pub put_front : ℕ → Option (Str × Str) → Option (Str × Str)
put_front c none = none
put_front c (some (line, rest)) = some (c ∷ line, rest)

-- read_line on the bytes from `nextline` to the NUL: the line and the bytes behind it, or NULL if no
-- end of line has come yet, which leaves the bytes where they are.
unfoldable pub read_line : Str → Option (Str × Str)
unfolding skip_eol put_front
read_line [] = none
read_line (c ∷ s) = if is_eol c then some ([], skip_eol s) else put_front c (read_line s)

unfoldable pub after_line : (Str → List Str × Str) → Str → Option (Str × Str) → List Str × Str
after_line loop s none = ([], s)
after_line loop s (some (line, rest)) = let (lines, left) = loop rest in (line ∷ lines, left)

-- The loop of child_main: lines are read until NULL.
unfoldable pub read_lines : ℕ → Str → List Str × Str
unfolding read_line after_line
read_lines zero s = ([], s)
read_lines (suc fuel) s = after_line (read_lines fuel) s (read_line s)

-- The bytes before the first NUL.
unfoldable pub until_nul : List ℕ → Str
until_nul [] = []
until_nul (c ∷ s) = if c == 0 then [] else c ∷ until_nul s

-- read_chunk: what was left over moves to the front of the buffer, and `received` gives what read
-- stores behind it, for the room that is left. -1 is none.
unfoldable pub read_chunk : (ℕ → Option (List ℕ)) → Str → Option Str
unfolding until_nul
read_chunk received s = do
  bytes ← received (chunksize - length s - 10)
  if leb (length bytes) 0 then none else some (s ++ until_nul bytes)

-- One pass of the main loop over the network, if read_chunk gives data.
unfoldable pub pass : Str → Str → List Str × Str
unfolding read_lines
pass s bytes = read_lines (length (s ++ bytes)) (s ++ bytes)

-- The bytes that send_raw appends for a text: vsnprintf and snprintf cut it to their sizes.
unfoldable pub framed : Str → Str
framed text = strncpy 1023 (strncpy 1022 text ++ 13 ∷ 10 ∷ [])

-- send_raw on the queue of `writebytes` bytes. Without DIE_ON_PANIC a message that does not fit is
-- dropped.
unfoldable pub send_raw : Str → Str → Str
send_raw queue text =
    let tmp = framed text in
    if ltb sendqsize (length tmp)
    then queue
    else (if leb sendqsize (length tmp + length queue) then queue else queue ++ tmp)

unfoldable pub drop_bytes : ℕ → Str → Str
drop_bytes zero s = s
drop_bytes (suc n) [] = []
drop_bytes (suc n) (c ∷ s) = drop_bytes n s

-- flush_sendq: `sent` answers how many of the bytes send takes, none for an error. The result is
-- what is on the wire and what stays in the queue.
unfoldable pub flush_sendq : (Str → Option ℕ) → Str → Option (Str × Str)
unfolding drop_bytes
flush_sendq sent [] = some ([], [])
flush_sendq sent (c ∷ queue) = do
  bytes ← sent (c ∷ queue)
  some (strncpy bytes (c ∷ queue), drop_bytes bytes (c ∷ queue))
