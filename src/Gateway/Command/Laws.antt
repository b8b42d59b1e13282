-- ===== src/Gateway/Command/Laws.antt =====
-- src/gateway/app.py: `_APPROVAL_COMMAND` on the replies that the approval comment asks for.
use agentic_temporal_wf.Base.{ℕ, ◌≤◌, true, false, Option, none, some, [], ◌∷◌, ◌++◌}
use agentic_temporal_wf.Base.{◌≡◌, refl, arith, append-nil, all, length, ℕ_discrete, or_else}
use agentic_temporal_wf.Base.Text.{Text, codes, is_space}
use agentic_temporal_wf.Base.Regex.{dot, plus}
use agentic_temporal_wf.Base.Regex.Laws.{Stops, star_longest, plus_longest, repeat_longest}
use agentic_temporal_wf.Gateway.Command.{
  ApprovalCommand, match_command, named, chosen, identified, ending, reasoned, trailing,
  is_hex_letter, word_then,
}
use agentic_temporal_wf.Workflow.Keys.{is_hex}

-- An id as the workflow makes them: lower-case hexadecimal digits, and as many as the pattern asks.
pub record IsId (id : Text) : Type 0 where
  pub hex : all is_hex id ≡ true
  pub at_least : 16 ≤ length id
  pub at_most : length id ≤ 64

hex-letters : (id : Text) → all is_hex id ≡ true → all is_hex_letter id ≡ true
unfolding is_hex is_hex_letter
hex-letters [] h = refl
hex-letters (c ∷ id) h = ground (arith, hex-letters id)

hex-not_space : (c : ℕ) → is_hex c ≡ true → is_space c ≡ false
unfolding is_hex is_space
hex-not_space c h = ground arith

Stops-hex {ℓ} :
    {R : Type ℓ} (k : Text → Text → Option R) (id : Text)
    → all is_hex id ≡ true
    → Stops is_space k id
Stops-hex k [] h = tt
Stops-hex k (c ∷ id) h = hex-not_space c (ground arith)

identified-id :
    (word run id rest : Text) {r : ApprovalCommand}
    → IsId id
    → Stops is_hex_letter (ending word) rest
    → ending word id rest ≡ some r
    → identified word run (id ++ rest) ≡ some r
unfolding identified
identified-id word run id rest i stop e =
    repeat_longest is_hex_letter (ending word) 16 64 [] id rest (hex-letters id i.hex) i.at_least
      i.at_most stop e

named-rest :
    (run t : Text) → named run (codes "/autofix " ++ t) ≡ plus is_space (codes " " ++ t) chosen
unfolding named ℕ_discrete
named-rest run t = refl

word_then-approve :
    (t : Text)
    → word_then (codes "approve") (codes "approve " ++ t)
      ≡ plus is_space (codes " " ++ t) (identified (codes "approve"))
unfolding word_then ℕ_discrete
word_then-approve t = refl

word_then-deny :
    (t : Text)
    → (word_then (codes "approve") (codes "deny " ++ t) ≡ none)
      × (word_then (codes "deny") (codes "deny " ++ t)
          ≡ plus is_space (codes " " ++ t) (identified (codes "deny")))
unfolding word_then ℕ_discrete
word_then-deny t = (refl, refl)

-- Up to the word, the text of a reply is taken as it stands.
match-chosen :
    (c : ℕ) (t : Text) {r : ApprovalCommand}
    → is_space c ≡ false
    → chosen (codes " ") (c ∷ t) ≡ some r
    → match_command (codes "/autofix " ++ c ∷ t) ≡ some r
unfolding match_command ℕ_discrete
match-chosen c t letter e = star_longest is_space named [] (codes "/autofix " ++ c ∷ t) refl refl (
    rw (named-rest [] (c ∷ t))
      (plus_longest is_space chosen (codes " ") (c ∷ t) refl (omega arith) letter e))

match-approve :
    (t : Text) {r : ApprovalCommand}
    → plus is_space (codes " " ++ t) (identified (codes "approve")) ≡ some r
    → match_command (codes "/autofix approve " ++ t) ≡ some r
unfolding chosen ℕ_discrete
match-approve t e =
    match-chosen b'a' (codes "pprove " ++ t) refl (rw (word_then-approve t, e, or_else))

match-deny :
    (t : Text) {r : ApprovalCommand}
    → plus is_space (codes " " ++ t) (identified (codes "deny")) ≡ some r
    → match_command (codes "/autofix deny " ++ t) ≡ some r
unfolding chosen ℕ_discrete
match-deny t e =
    let (none_first, then_deny) = word_then-deny t in
    match-chosen b'd' (codes "eny " ++ t) refl (rw (none_first, then_deny, or_else) e)

-- The id behind the word, with what follows it.
spaced_id :
    (word id rest : Text) {r : ApprovalCommand}
    → IsId id
    → Stops is_hex_letter (ending word) rest
    → Stops is_space (identified word) (id ++ rest)
    → ending word id rest ≡ some r
    → plus is_space (codes " " ++ (id ++ rest)) (identified word) ≡ some r
unfolding is_space ℕ_discrete
spaced_id word id rest i stop letter e =
    plus_longest is_space (identified word) (codes " ") (id ++ rest) refl (omega arith) letter
      (identified-id word (codes " ") id rest i stop e)

ending-nil :
    (word id : Text)
    → ending word id [] ≡ some (record { word = word; approval_id = id; reason = none })
unfolding ending ℕ_discrete
ending-nil word id = refl

ending-reason :
    (word id : Text) (c : ℕ) (t : Text)
    → is_space c ≡ false
    → all dot (c ∷ t) ≡ true
    → ending word id (codes " " ++ c ∷ t)
      ≡ some (record { word = word; approval_id = id; reason = some (c ∷ t) })
unfolding ending ℕ_discrete
ending-reason word id c t letter dots =
    let r : ApprovalCommand = record { word = word; approval_id = id; reason = some (c ∷ t) } in
    let all_of : reasoned word id (codes " ") (c ∷ t) ≡ some r = rw append-nil at (
      plus_longest dot (λ reason s. trailing word id (some reason) s) (c ∷ t) [] dots (omega arith)
        tt refl) in
    let taken_space : plus is_space (codes " " ++ c ∷ t) (reasoned word id) ≡ some r =
      plus_longest is_space (reasoned word id) (codes " ") (c ∷ t) refl (omega arith) letter
        all_of in
    rw (taken_space, or_else)

-- A reply `/autofix approve <id>` is read as an approval of the id, and a reply
-- `/autofix deny <id> <reason>` as a denial with just that reason, for every id of 16 to 64
-- lower-case hexadecimal digits and every one-line reason that does not begin with white space.
pub match_command-reply :
    (id : Text) (c : ℕ) (t : Text)
    → IsId id
    → is_space c ≡ false
    → all dot (c ∷ t) ≡ true
    → (match_command (codes "/autofix approve " ++ id)
        ≡ some (record { word = codes "approve"; approval_id = id; reason = none }))
      × (match_command (codes "/autofix deny " ++ (id ++ (codes " " ++ c ∷ t)))
          ≡ some (record { word = codes "deny"; approval_id = id; reason = some (c ∷ t) }))
unfolding is_hex_letter ℕ_discrete
match_command-reply [] c t i letter dots = absurd (omega (arith, i.at_least))
match_command-reply (d ∷ id) c t i letter dots =
    let first : is_space d ≡ false = hex-not_space d (ground arith) in
    (
      match-approve (d ∷ id) (
          rw append-nil at (
            spaced_id (codes "approve") (d ∷ id) [] i tt first
              (ending-nil (codes "approve") (d ∷ id)))),
      match-deny (d ∷ id ++ (codes " " ++ c ∷ t)) (
          spaced_id (codes "deny") (d ∷ id) (codes " " ++ c ∷ t) i refl first
            (ending-reason (codes "deny") (d ∷ id) c t letter dots)),
    )
