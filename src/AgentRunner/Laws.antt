-- ===== src/AgentRunner/Laws.antt =====
-- src/agent_runner and src/activities/agent_iteration.py: what the activity reads of the messages
-- that the program in the sandbox writes.
use agentic_temporal_wf.Base.{
  ℕ, ◌+◌, true, false, not, Option, none, some, List, [], ◌∷◌, ◌++◌, ◌≡◌, refl, sym, ap, ◌∙◌, arith,
  if◌then◌else◌, ◌==◌, nat_eq, text_eq, ℕ_discrete, all, map, ltb, append-nil, append_assoc,
  returns,
}
use agentic_temporal_wf.Base.Text.{Text, codes, nonempty}
use agentic_temporal_wf.Base.Json.{Json, string, truthy}
use agentic_temporal_wf.Base.Json.Distinct.{distinct}
use agentic_temporal_wf.Iteration.Activity.{
  Progress, no_progress, counted, is_text, count_calls, on_message, consume,
}
use agentic_temporal_wf.Iteration.Demux.{Bytes, lines_from, rest_from, dispatch_into_sandbox}
use agentic_temporal_wf.Iteration.Demux.Laws.{Frame, encode, payloads}
use agentic_temporal_wf.Iteration.Demux.Chunks.{joined, lines_of, dispatch_into_sandbox-lines}
use agentic_temporal_wf.AgentRunner.{
  Block, Message, assistant, result, other, attribute, serialise, serialise_blocks, encode_message,
  written,
}

-- What is documented of `json`: a dump is ASCII text of one line, and is loaded as it was.
pub record IsJson (dumps : Json → Text) (loads : Text → Option Json) : Type 0 where
  pub loads-dumps : (v : Json) → distinct v ≡ true → loads (dumps v) ≡ some v
  pub one_line : (v : Json) → all (λ c. not (c == 10)) (dumps v) ≡ true
  pub ascii : (v : Json) → all (λ c. ltb c 128) (dumps v) ≡ true

-- The blocks that call a tool.
abbrev pub calls : List Block → ℕ
calls [] = 0
calls (b ∷ bs) = (if is_text (codes "tool_use") b.type then 1 else 0) + calls bs

-- What a message says, without the detour through JSON.
abbrev pub read_message : Message → Progress → Progress
read_message (assistant blocks) p = record p {
  messages = p.messages + 1;
  tool_calls = p.tool_calls + calls blocks;
}
read_message (result subtype text) p = record p {
  messages = p.messages + 1;
  final_subtype = attribute subtype;
  final_text = if truthy (attribute text) then attribute text else string [];
}
read_message other p = counted p

abbrev pub read_messages : List Message → Progress → Progress
read_messages [] p = p
read_messages (m ∷ ms) p = read_messages ms (read_message m p)

one_call :
    (kind : Option Json) (n : ℕ)
    → (if is_text (codes "tool_use") (some (attribute kind)) then n + 1 else n)
      ≡ n + (if is_text (codes "tool_use") kind then 1 else 0)
one_call none n = omega arith
one_call (some v) n = ground arith

count_calls-serialise_blocks :
    (blocks : List Block) (n : ℕ)
    → count_calls (serialise_blocks blocks) n ≡ returns (n + calls blocks)
unfolding count_calls serialise_blocks text_eq ℕ_discrete
count_calls-serialise_blocks [] n = ap returns (omega arith)
count_calls-serialise_blocks (b ∷ bs) n =
    let one : (if is_text (codes "tool_use") (some (attribute b.type)) then n + 1 else n)
        ≡ n + (if is_text (codes "tool_use") b.type then 1 else 0) =
      one_call b.type n in
    ap (count_calls (serialise_blocks bs)) one
    ∙ count_calls-serialise_blocks bs (n + (if is_text (codes "tool_use") b.type then 1 else 0))
    ∙ ap returns (omega arith)

on_message-serialise :
    (m : Message) (p : Progress) → on_message (serialise m) (counted p) ≡ returns (read_message m p)
unfolding on_message serialise text_eq ℕ_discrete
on_message-serialise (assistant blocks) p =
    rw (count_calls-serialise_blocks blocks p.tool_calls) refl
on_message-serialise (result subtype text) p = refl
on_message-serialise other p = refl

-- A line that ends.
lines_from-line :
    (cur s t : Bytes)
    → all (λ c. not (c == 10)) s ≡ true
    → (lines_from cur (s ++ (10 ∷ t)) ≡ (cur ++ s) ∷ lines_from [] t)
      × (rest_from cur (s ++ (10 ∷ t)) ≡ rest_from [] t)
unfolding lines_from rest_from ℕ_discrete
lines_from-line cur [] t h = (ap (λ (v : Bytes). v ∷ lines_from [] t) (sym (append-nil cur)), refl)
lines_from-line cur (c ∷ s) t h =
    let plain : (c == 10) ≡ false = ground arith in
    let (lines, rest) = lines_from-line (cur ++ c ∷ []) s t (ground arith) in
    (ground (arith, plain, lines, append_assoc cur (c ∷ []) s), ground (arith, plain, rest))

-- UTF-8 reads ASCII text as it is.
pub record IsUtf8 (decode : Bytes → Text) : Type 0 where
  pub decode-ascii : (b : Bytes) → all (λ c. ltb c 128) b ≡ true → decode b ≡ b

module _ (dumps : Json → Text) (loads : Text → Option Json) (json : IsJson dumps loads) where
  abbrev line_of : Message → Text
  line_of m = encode_message dumps (serialise m)

  lines-written :
      (ms : List Message)
      → (lines_from [] (written dumps ms) ≡ map line_of ms) × (rest_from [] (written dumps ms) ≡ [])
  unfolding written encode_message lines_from rest_from
  lines-written [] = (refl, refl)
  lines-written (m ∷ ms) =
      let (lines, rest) =
        lines_from-line [] (dumps (serialise m)) (written dumps ms) (json.one_line (serialise m)) in
      let (more, last) = lines-written ms in
      (lines ∙ ap (λ (t : List Text). dumps (serialise m) ∷ t) more, rest ∙ last)

  lines_of-written : (ms : List Message) → lines_of (written dumps ms) ≡ map line_of ms
  lines_of-written ms =
      let (lines, rest) = lines-written ms in rw (lines, rest) (append-nil (map line_of ms))

  map-decode :
      (decode : Bytes → Text)
      → IsUtf8 decode
      → (ms : List Message) → map decode (map line_of ms) ≡ map line_of ms
  unfolding encode_message
  map-decode decode u [] = refl
  map-decode decode u (m ∷ ms) =
      rw (u.decode-ascii (dumps (serialise m)) (json.ascii (serialise m)), map-decode decode u ms)
        refl

  consume-lines :
      (ms : List Message) (p : Progress)
      → all (λ m. distinct (serialise m)) ms ≡ true
      → consume loads (map line_of ms) p ≡ returns (read_messages ms p)
  unfolding consume encode_message
  consume-lines [] p h = refl
  consume-lines (m ∷ ms) p h =
      rw (consume, json.loads-dumps (serialise m) (ground arith), on_message-serialise m p)
        (consume-lines ms (read_message m p) (ground arith))

  -- The activity reads from the output of the sandbox exactly what the messages of the SDK say: the
  -- final text and the subtype of the last result message, the number of messages, and that of the
  -- blocks of the type `tool_use`; however Docker frames what the program writes, whatever it
  -- interleaves with it on other streams, and however the frames arrive in chunks.
  pub consume-written :
      (decode : Bytes → Text) (ms : List Message) (frames : List Frame) (chunks : List Bytes)
      → IsUtf8 decode
      → all (λ m. distinct (serialise m)) ms ≡ true
      → all nonempty chunks ≡ true
      → joined chunks ≡ encode frames
      → payloads 1 frames ≡ written dumps ms
      → consume loads (map decode (dispatch_into_sandbox chunks).0) no_progress
        ≡ returns (read_messages ms no_progress)
  consume-written decode ms frames chunks u d h cut out =
      ap (λ (t : List Bytes × List Bytes). consume loads (map decode t.0) no_progress)
        (dispatch_into_sandbox-lines frames chunks h cut)
      ∙ (ap (λ (w : Bytes). consume loads (map decode (lines_of w)) no_progress) out
          ∙ (ap (λ (t : List Bytes). consume loads (map decode t) no_progress) (lines_of-written ms)
              ∙ (ap (λ (t : List Text). consume loads t no_progress) (map-decode decode u ms)
                  ∙ consume-lines ms no_progress d)))
