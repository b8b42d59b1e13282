-- ===== src/Tests/Storage.antt =====
-- The theorems on stored payloads and on the messages of the agent at concrete inputs.
use agentic_temporal_wf.Base.{
  ℕ, ap, sym, ◌∙◌, true, Option, none, some, List, [], ◌∷◌, ◌++◌, ◌≡◌, ◌≢◌, refl, all, map, length,
  text_eq, ℕ_discrete, arith, append-nil, take, drop, Outcome, returns, raises, key_error, ⊤,
}
use agentic_temporal_wf.Base.Text.{Text, codes, show, show_injective}
use agentic_temporal_wf.Base.Dict.{Dict, lookup, insert, lookup-insert_self, lookup-insert_ne}
use agentic_temporal_wf.Base.Json.{string, object, end}
use agentic_temporal_wf.Base.Json.Distinct.{distinct, distinct_fields}
use agentic_temporal_wf.PayloadStorage.{
  Bytes, Payload, S3, Runtime, Codec, World, encode, decode, inline, object_key, original_meta,
  is_reference,
}
use agentic_temporal_wf.PayloadStorage.Laws.{IsStore, IsRuntime, IsPayload, decode-encode}
use agentic_temporal_wf.Iteration.Activity.{no_progress, consume}
use agentic_temporal_wf.Iteration.Demux.{dispatch_into_sandbox}
use agentic_temporal_wf.Iteration.Demux.Laws.{Frame, payloads}
use agentic_temporal_wf.Iteration.Demux.Laws as Demux
use agentic_temporal_wf.Iteration.Demux.Chunks.{joined}
use agentic_temporal_wf.AgentRunner.{Message, assistant, result, other, Block, serialise, written}
use agentic_temporal_wf.AgentRunner.Laws.{IsJson, IsUtf8, read_messages, consume-written}
use agentic_temporal_wf.Tests.Serial.{dumps, loads}
use agentic_temporal_wf.Tests.Serial.Read.{loads-dumps}
use agentic_temporal_wf.Tests.Serial.Letters.{dumps-one_line, dumps-ascii}

-- Objects in memory.
abbrev object_at : Option Bytes → Outcome Bytes
object_at none = raises key_error
object_at (some body) = returns body

abbrev memory : S3
memory = record {
  Held = Dict Text Bytes;
  put_object = λ bucket key body held. (returns tt, insert key body held);
  get_object = λ bucket key held. object_at (lookup key held);
}

memory-get-put :
    (bucket key : Text) (body : Bytes) (held next : Dict Text Bytes)
    → memory.put_object bucket key body held ≡ (returns tt, next)
    → memory.get_object bucket key next ≡ returns body
memory-get-put bucket key body held next h =
    let at_next = ap (λ (t : Outcome ⊤ × Dict Text Bytes). t.1) h in
    ap (λ (t : Dict Text Bytes). object_at (lookup key t)) (sym at_next)
    ∙ ap object_at (lookup-insert_self key body held)

memory-get-put_ne :
    (bucket key another : Text) (body : Bytes) (held : Dict Text Bytes)
    → another ≢ key
    → memory.get_object bucket another (memory.put_object bucket key body held).1
      ≡ memory.get_object bucket another held
memory-get-put_ne bucket key another body held h =
    ap object_at (lookup-insert_ne another key body held h)

memory-IsStore : IsStore memory
memory-IsStore = record { get-put = memory-get-put; get-put_ne = memory-get-put_ne }

abbrev runtime : Runtime
runtime = record { to_json = dumps; of_json = loads; uuid = show }

runtime-IsRuntime : IsRuntime runtime
runtime-IsRuntime = record {
  of_json-to_json = λ v _. loads-dumps v;
  uuid_injective = show_injective;
}

abbrev codec : Codec
codec = record { bucket = codes "b"; threshold = 2; prefix = codes "p" }

abbrev small : Payload
small = record { metadata = []; body = 7 ∷ [] }

abbrev large : Payload
large = record { metadata = (codes "k", 255 ∷ []) ∷ []; body = 1 ∷ 2 ∷ 3 ∷ [] }

abbrev empty_world : World memory
empty_world = record { drawn = 0; held = [] }

abbrev key_0 : Text
key_0 = object_key codec (show 0)

abbrev full_world : World memory
full_world = record { drawn = 1; held = (key_0, 1 ∷ 2 ∷ 3 ∷ []) ∷ [] }

abbrev on_wire : List Payload
on_wire = small ∷ inline runtime codec key_0 large ∷ []

small-IsPayload : IsPayload codec small
unfolding distinct_fields original_meta is_reference
small-IsPayload = record { keys_once = refl; bytes = tt; honest = refl }

large-IsPayload : IsPayload codec large
unfolding distinct_fields original_meta
large-IsPayload = record { keys_once = refl; bytes = (refl, tt); honest = refl }

encoded :
    encode memory runtime codec (small ∷ large ∷ []) empty_world ≡ (returns on_wire, full_world)
unfolding encode insert
encoded = refl

decode-encode_example : decode memory runtime on_wire full_world.held ≡ returns (small ∷ large ∷ [])
decode-encode_example =
    decode-encode memory memory-IsStore runtime runtime-IsRuntime codec (small ∷ large ∷ []) on_wire
      empty_world full_world (small-IsPayload, (large-IsPayload, tt)) encoded

json : IsJson dumps loads
json = record { loads-dumps = λ v _. loads-dumps v; one_line = dumps-one_line; ascii = dumps-ascii }

utf8 : IsUtf8 (λ b. b)
utf8 = record { decode-ascii = λ b _. refl }

abbrev tool_call : Block
tool_call = record {
  type = some (string (codes "tool_use"));
  text = none;
  id = none;
  name = some (string (codes "Read"));
  input = some (object end);
}

abbrev messages : List Message
messages = assistant (tool_call ∷ []) ∷ other ∷ result (some (string (codes "ok"))) none ∷ []

-- The output of the program after a frame of the other stream, cut within the first header.
abbrev frame_of : (stream : ℕ) (payload : Bytes) → Frame
frame_of stream payload = record {
  stream = stream;
  p1 = 0;
  p2 = 0;
  p3 = 0;
  a = 0;
  b = 0;
  c = 0;
  d = length payload;
  payload = payload;
  size = omega arith;
}

abbrev frames : List Frame
frames = frame_of 2 (9 ∷ []) ∷ frame_of 1 (written dumps messages) ∷ []

abbrev chunks : List Bytes
chunks = take 5 (Demux.encode frames) ∷ drop 5 (Demux.encode frames) ∷ []

messages_distinct : all (λ m. distinct (serialise m)) messages ≡ true
unfolding distinct serialise text_eq ℕ_discrete
messages_distinct = refl

in_frames : payloads 1 frames ≡ written dumps messages
unfolding ℕ_discrete
in_frames = append-nil (written dumps messages)

cut : joined chunks ≡ Demux.encode frames
cut =
    ap (λ (t : Bytes). take 5 (Demux.encode frames) ++ t)
      (append-nil (drop 5 (Demux.encode frames)))

consume-written_example :
    consume loads (map (λ b. b) (dispatch_into_sandbox chunks).0) no_progress
    ≡ returns (read_messages messages no_progress)
consume-written_example =
    consume-written dumps loads json (λ b. b) messages frames chunks utf8 messages_distinct refl cut
      in_frames
