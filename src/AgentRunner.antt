-- ===== src/AgentRunner.antt =====
-- src/agent_runner: the program in the sandbox, which writes each message of the SDK as a line of
-- JSON. The SDK and `json` are parameters.
pub mod Laws
use agentic_temporal_wf.Base.{
  ℕ, Bool, true, false, Option, none, some, List, [], ◌∷◌, ◌++◌, if◌then◌else◌, map, get_or,
}
use agentic_temporal_wf.Base.Text.{Text, codes, strip, nonempty}
use agentic_temporal_wf.Base.Json.{Json, Items, nil, cons, null, string, array, object, end, field}

-- The attributes that the program asks of a block; none is an attribute that it does not have.
pub record Block : Type 0 where
  pub type : Option Json
  pub text : Option Json
  pub id : Option Json
  pub name : Option Json
  pub input : Option Json

-- The messages of the SDK by their classes. An assistant's message without content has no blocks.
pub data Message : Type 0 where
  assistant : List Block → Message
  result : (subtype result : Option Json) → Message
  other : Message

-- `getattr(b, name, None)`
abbrev pub attribute : Option Json → Json
attribute a = get_or a null

unfoldable pub serialise_block : Block → Json
serialise_block b = object (
    field (codes "type") (attribute b.type) (
      field (codes "text") (attribute b.text) (
        field (codes "id") (attribute b.id) (
          field (codes "name") (attribute b.name)
            (field (codes "input") (attribute b.input) end)))))

unfoldable pub serialise_blocks : List Block → Items
unfolding serialise_block
serialise_blocks [] = nil
serialise_blocks (b ∷ bs) = cons (serialise_block b) (serialise_blocks bs)

-- `_serialise`
unfoldable pub serialise : Message → Json
unfolding serialise_blocks
serialise (assistant blocks) = object (
    field (codes "type") (string (codes "assistant"))
      (field (codes "content") (array (serialise_blocks blocks)) end))
serialise (result subtype text) = object (
    field (codes "type") (string (codes "result"))
      (field (codes "subtype") (attribute subtype) (field (codes "result") (attribute text) end)))
serialise other = object (field (codes "type") (string (codes "other")) end)

-- `encode_message`; `dumps` is `json.dumps` with `default=str`.
unfoldable pub encode_message : (Json → Text) → Json → Text
encode_message dumps msg = dumps msg

-- `decode_messages`: lines that are blank or no JSON are passed over.
unfoldable pub decode_messages : (Text → Option Json) → List Text → List Json
unfolding strip
decode_messages loads [] = []
decode_messages loads (raw ∷ lines) =
    let rest = decode_messages loads lines in
    let read : List Json = elim (loads (strip raw)) [ none ↦ rest | some msg ↦ msg ∷ rest ] in
    if nonempty (strip raw) then read else rest

-- What `_amain` writes for the messages that `query` yields.
unfoldable pub written : (Json → Text) → List Message → Text
unfolding encode_message serialise
written dumps [] = []
written dumps (m ∷ ms) = encode_message dumps (serialise m) ++ (10 ∷ written dumps ms)
