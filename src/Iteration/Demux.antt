-- ===== src/Iteration/Demux.antt =====
-- `dispatch_into_sandbox`, from the first byte received on: the frames of Docker's stream are taken
-- apart, and their payloads cut into lines. Bytes are numbers.
pub mod Lines
pub mod Laws
pub mod Chunks
use agentic_temporal_wf.Base.{
  ℕ, zero, suc, ◌+◌, ◌*◌, Bool, true, false, Option, none, some, List, [], ◌∷◌, ◌++◌,
}
use agentic_temporal_wf.Base.{◌==◌, nat_eq, if◌then◌else◌, ltb, length, take, drop, arith}

abbrev pub Bytes : Type 0
Bytes = List ℕ

-- `_split_lines`: the lines that are complete, and what is left. `cur` is the start of the line.
unfoldable pub lines_from : Bytes → Bytes → List Bytes
lines_from cur [] = []
lines_from cur (c ∷ buf) =
    let closed = cur ∷ lines_from [] buf in
    let longer = lines_from (cur ++ c ∷ []) buf in if c == b'\n' then closed else longer

unfoldable pub rest_from : Bytes → Bytes → Bytes
rest_from cur [] = cur
rest_from cur (c ∷ buf) =
    let closed = rest_from [] buf in
    let longer = rest_from (cur ++ c ∷ []) buf in if c == b'\n' then closed else longer

-- One of the two streams: the bytes that wait for a newline, and the lines that are out.
pub record Stream : Type 0 where
  pub buffer : Bytes
  pub out : List Bytes

abbrev pub empty_stream : Stream
empty_stream = record { buffer = []; out = [] }

-- The buffer grows by a payload, and its complete lines are taken.
unfoldable pub write : Bytes → Stream → Stream
unfolding lines_from rest_from
write payload s = record {
  buffer = rest_from [] (s.buffer ++ payload);
  out = s.out ++ lines_from [] (s.buffer ++ payload);
}

-- What is yielded, and what is logged.
pub record Streams : Type 0 where
  pub stdout : Stream
  pub stderr : Stream

-- The payload of a frame goes to the stream that its first byte names, if it is one of the two.
unfoldable pub take_frame : ℕ → Bytes → Streams → Streams
unfolding write
take_frame stream payload s =
    if stream == 1
    then record s { stdout = write payload s.stdout }
    else if stream == 2
    then record s { stderr = write payload s.stderr }
    else s

-- `struct.unpack(">I", ...)`
abbrev pub be32 : ℕ → ℕ → ℕ → ℕ → ℕ
be32 a b c d = ((a * 256 + b) * 256 + c) * 256 + d

-- A frame at the start of `raw`, if it is complete: its stream, its payload and what follows it.
abbrev sized : ℕ → ℕ → Bytes → Option (ℕ × Bytes × Bytes)
sized stream n body = if ltb (length body) n then none else some (stream, take n body, drop n body)

unfoldable pub next_frame : Bytes → Option (ℕ × Bytes × Bytes)
next_frame (t ∷ _ ∷ _ ∷ _ ∷ a ∷ b ∷ c ∷ d ∷ body) = sized t (be32 a b c d) body
next_frame _ = none

pub record Demux : Type 0 where
  pub raw : Bytes
  pub streams : Streams

-- The inner loop, on fuel.
unfoldable pub drain : ℕ → Demux → Demux
unfolding next_frame take_frame
drain zero s = s
drain (suc fuel) s = elim (next_frame s.raw) [
  | none ↦ s
  | some (stream, payload, rest) ↦
      drain fuel (record { raw = rest; streams = take_frame stream payload s.streams })
]

-- A chunk has been received. A frame has eight bytes at least, so there are fewer of them than bytes.
unfoldable pub receive : Bytes → Demux → Demux
unfolding drain
receive chunk s =
    let raw = s.raw ++ chunk in drain (length raw) (record { raw = raw; streams = s.streams })

-- The outer loop: it ends with the first chunk that is empty.
unfoldable pub receive_all : List Bytes → Demux → Demux
unfolding receive
receive_all [] s = s
receive_all ([] ∷ chunks) s = s
receive_all ((c ∷ chunk) ∷ chunks) s = receive_all chunks (receive (c ∷ chunk) s)

-- A trailing partial line is given out too.
abbrev pub trailing : Bytes → List Bytes
trailing [] = []
trailing (c ∷ buf) = (c ∷ buf) ∷ []

unfoldable pub closed : Stream → List Bytes
closed s = s.out ++ trailing s.buffer

-- The lines that are yielded, and those that are logged, for the chunks that are received.
unfoldable pub dispatch_into_sandbox : List Bytes → List Bytes × List Bytes
unfolding receive_all closed
dispatch_into_sandbox chunks =
    let s =
      receive_all chunks
        (record { raw = []; streams = record { stdout = empty_stream; stderr = empty_stream } }) in
    (closed s.streams.stdout, closed s.streams.stderr)
