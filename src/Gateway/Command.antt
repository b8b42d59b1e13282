-- ===== src/Gateway/Command.antt =====
-- `_APPROVAL_COMMAND`, the pattern of the comments by which a reviewer decides.
pub mod Laws
pub mod Sound
use agentic_temporal_wf.Base.{
  ℕ, Bool, ◌&&◌, ◌||◌, ◌==◌, text_eq, Option, none, some, List, [], ◌∷◌, or_else,
}
use agentic_temporal_wf.Base.Text.{Text, codes, within, is_space, lower}
use agentic_temporal_wf.Base.Regex.{repeat, star, plus, literal, at_end, same_letter, dot}

-- The groups of a match: the word, the id, and the text after it if there is one.
pub record ApprovalCommand : Type 0 where
  pub word : Text
  pub approval_id : Text
  pub reason : Option Text

-- `[a-f0-9]` under `re.IGNORECASE`.
unfoldable pub is_hex_letter : ℕ → Bool
is_hex_letter c = within b'0' b'9' c || within b'a' b'f' c || within b'A' b'F' c

-- `\s*$`
unfoldable pub trailing : Text → Text → Option Text → Text → Option ApprovalCommand
unfolding star at_end is_space
trailing word id reason s =
    star is_space s
      λ _ s. at_end s (some (record { word = word; approval_id = id; reason = reason }))

-- `(.+)`, and the rest.
unfoldable pub reasoned : Text → Text → Text → Text → Option ApprovalCommand
unfolding plus dot trailing
reasoned word id _ s = plus dot s λ reason s. trailing word id (some reason) s

-- `(?:\s+(.+))?`, and the rest.
unfoldable pub ending : Text → Text → Text → Option ApprovalCommand
unfolding plus is_space reasoned trailing
ending word id s = or_else (plus is_space s (reasoned word id)) (trailing word id none s)

-- `([a-f0-9]{16,64})`, and the rest.
unfoldable pub identified : Text → Text → Text → Option ApprovalCommand
unfolding repeat ending is_hex_letter
identified word _ s = repeat is_hex_letter 16 64 [] s (ending word)

-- The group `(approve|deny)` holds what the text has, in its own case.
unfoldable pub taken : Text → Text → Text
taken [] s = []
taken (_ ∷ w) [] = []
taken (_ ∷ w) (c ∷ s) = c ∷ taken w s

-- A word of the group, `\s+`, and the rest.
unfoldable pub word_then : Text → Text → Option ApprovalCommand
unfolding literal plus identified same_letter taken is_space
word_then w s = literal same_letter w s λ rest. plus is_space rest (identified (taken w s))

unfoldable pub chosen : Text → Text → Option ApprovalCommand
unfolding word_then
chosen _ s = or_else (word_then (codes "approve") s) (word_then (codes "deny") s)

-- `/autofix\s+`, and the rest.
unfoldable pub named : Text → Text → Option ApprovalCommand
unfolding literal plus same_letter chosen is_space
named _ s = literal same_letter (codes "/autofix") s λ rest. plus is_space rest chosen

-- `_APPROVAL_COMMAND.match(s)`
unfoldable pub match_command : Text → Option ApprovalCommand
unfolding star is_space named
match_command s = star is_space s named

-- `action.lower() == "approve"`
unfoldable pub is_approval : ApprovalCommand → Bool
unfolding lower
is_approval c = lower c.word == codes "approve"
