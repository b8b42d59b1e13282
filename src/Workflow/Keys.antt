-- ===== src/Workflow/Keys.antt =====
-- src/activities/idempotency.py: the keys of side effects, from a SHA-256 digest in hexadecimal.
use agentic_temporal_wf.Base.{ℕ, Bool, true, ◌||◌, ◌++◌, ◌≡◌, all, length}
use agentic_temporal_wf.Base.{take}
use agentic_temporal_wf.Base.Text.{Text, codes, show, within}

-- `hashlib.sha256(raw.encode()).hexdigest()`, a function on texts.
abbrev pub HexDigest : Type 0
HexDigest = Text → Text

-- The characters of a digest.
unfoldable pub is_hex : ℕ → Bool
is_hex c = within b'0' b'9' c || within b'a' b'f' c

-- What is documented of `hexdigest`: 64 hexadecimal digits in lower case.
pub record IsDigest (h : HexDigest) : Type 0 where
  pub digits : (raw : Text) → length (h raw) ≡ 64
  pub hex : (raw : Text) → all is_hex (h raw) ≡ true

-- The text that `tool_call_key` hashes.
unfoldable pub raw_key : Text → ℕ → Text → Text
raw_key workflow_id iteration tool_use_id =
    workflow_id ++ codes "|" ++ show iteration ++ codes "|" ++ tool_use_id

unfoldable pub tool_call_key : HexDigest → Text → ℕ → Text → Text
unfolding raw_key
tool_call_key h workflow_id iteration tool_use_id =
    take 32 (h (raw_key workflow_id iteration tool_use_id))

unfoldable pub push_operation_key : HexDigest → Text → ℕ → Text
unfolding tool_call_key
push_operation_key h workflow_id iteration =
    tool_call_key h workflow_id iteration (codes "push_changes")
