-- ===== src/Gateway/Command/Sound.antt =====
-- src/gateway/app.py: `_APPROVAL_COMMAND`, from a match back to the text.
use agentic_temporal_wf.Base.{ℕ, ◌≤◌, Bool, true, Option, none, some, [], ◌∷◌}
use agentic_temporal_wf.Base.{
  ◌≡◌, refl, sym, arith, all, length, ℕ_discrete, or_else, not, ◌==◌, nat_eq,
}
use agentic_temporal_wf.Base.{◌⊎◌, inl, inr}
use agentic_temporal_wf.Base.Text.{Text, codes, is_space, lower, lower_code}
use agentic_temporal_wf.Base.Regex.{plus, star, same_letter, literal, dot, at_end}
use agentic_temporal_wf.Base.Regex.Laws.{repeat-Took}
use agentic_temporal_wf.Gateway.Command.{
  ApprovalCommand, match_command, named, chosen, identified, ending, is_hex_letter, word_then,
  trailing, reasoned, taken,
}

-- What is to be shown of a match.
pub record IsCommand (c : ApprovalCommand) : Type 0 where
  pub hex : all is_hex_letter c.approval_id ≡ true
  pub at_least : 16 ≤ length c.approval_id
  pub at_most : length c.approval_id ≤ 64
  pub word : (lower c.word ≡ codes "approve") ⊎ (lower c.word ≡ codes "deny")

-- The rest of the text after a literal, on which the pattern goes on.
literal-rest {ℓ} :
    {R : Type ℓ} (w s : Text) (k : Text → Option R) {r : R}
    → literal same_letter w s k ≡ some r
    → (rest : Text) × (k rest ≡ some r)
unfolding literal
literal-rest [] s k h = (s, h)
literal-rest (c ∷ w) [] k h = cc
literal-rest (c ∷ w) (d ∷ s) k h = literal-rest w s k (ground arith)

abbrev no_i : ℕ → Bool
no_i c = not (c == b'i')

literal-taken {ℓ} :
    {R : Type ℓ} (w s : Text) (k : Text → Option R) {r : R}
    → all no_i w ≡ true
    → literal same_letter w s k ≡ some r
    → lower (taken w s) ≡ w
unfolding literal taken lower same_letter
literal-taken [] s k n h = refl
literal-taken (c ∷ w) [] k n h = cc
literal-taken (c ∷ w) (d ∷ s) k {r} n h =
    let rec = literal-taken w s k {r = r} (ground arith) (ground arith) in
    let head : c ≡ lower_code d = ground arith in λ i. sym head i ∷ rec i

at_end-result {ℓ} :
    {R : Type ℓ} (s : Text) (o : Option R) {r : R} → at_end s o ≡ some r → o ≡ some r
unfolding at_end
at_end-result [] o h = h
at_end-result (c ∷ []) o h = ground arith
at_end-result (c ∷ d ∷ s) o h = cc

star-went_on {ℓ} :
    {R : Type ℓ} (p : ℕ → Bool) (s : Text) (k : Text → Text → Option R) {r : R}
    → star p s k ≡ some r
    → (run : Text) × (rest : Text) × (k run rest ≡ some r)
unfolding star
star-went_on p s k h = let t = repeat-Took p k 0 (length s) [] s h in (t.run, t.rest, t.went_on)

plus-went_on {ℓ} :
    {R : Type ℓ} (p : ℕ → Bool) (s : Text) (k : Text → Text → Option R) {r : R}
    → plus p s k ≡ some r
    → (run : Text) × (rest : Text) × (k run rest ≡ some r)
unfolding plus
plus-went_on p s k h = let t = repeat-Took p k 1 (length s) [] s h in (t.run, t.rest, t.went_on)

-- A choice that matched did so by one of its sides.
or_else-sides {ℓ} :
    {R : Type ℓ} (a b : Option R) {r : R} → or_else a b ≡ some r → (a ≡ some r) ⊎ (b ≡ some r)
or_else-sides none b h = inr h
or_else-sides (some a) b h = inl h

abbrev HasParts : Text → Text → ApprovalCommand → Type 0
HasParts word id c = (c.word ≡ word) × (c.approval_id ≡ id)

trailing-parts :
    (word id : Text) (reason : Option Text) (s : Text) {c : ApprovalCommand}
    → trailing word id reason s ≡ some c
    → HasParts word id c
unfolding trailing
trailing-parts word id reason s h =
    let (run, rest, e) = star-went_on is_space s _ h in let e' = at_end-result rest _ e in (cc, cc)

ending-parts :
    (word id s : Text) {c : ApprovalCommand} → ending word id s ≡ some c → HasParts word id c
unfolding ending
ending-parts word id s h =
    elim (or_else-sides (plus is_space s (reasoned word id)) (trailing word id none s) h) [
      | inr bare ↦ trailing-parts word id none s bare
      | inl spaced ↦
          let (run, rest, e) = plus-went_on is_space s (reasoned word id) spaced in
          let (reason, rest', e') =
            plus-went_on dot rest (λ reason s. trailing word id (some reason) s) e in
          trailing-parts word id (some reason) rest' e'
    ]

word_then-IsCommand :
    (w s : Text) {c : ApprovalCommand}
    → all no_i w ≡ true
    → (w ≡ codes "approve") ⊎ (w ≡ codes "deny")
    → word_then w s ≡ some c
    → IsCommand c
unfolding word_then identified
word_then-IsCommand w s {c} n known h =
    let whole = literal-taken w s _ {r = c} n h in
    let (rest, e) = literal-rest w s _ {r = c} h in
    let (run, rest', e') = plus-went_on is_space rest (identified (taken w s)) e in
    let t = repeat-Took is_hex_letter (ending (taken w s)) 16 64 [] rest' e' in
    let (same_word, same_id) = ending-parts (taken w s) t.run t.rest t.went_on in
    record {
      hex = rw same_id t.of_class;
      at_least = rw same_id t.at_least;
      at_most = rw same_id t.at_most;
      word = rw (same_word, whole) known;
    }

-- A comment that the pattern matches gives an id of 16 to 64 hexadecimal digits, and a word that is
-- `approve` or `deny` in some case of its letters.
pub match_command-IsCommand :
    (s : Text) {c : ApprovalCommand} → match_command s ≡ some c → IsCommand c
unfolding match_command named chosen
match_command-IsCommand s h =
    let (run, rest, e) = star-went_on is_space s named h in
    let (rest', e') = literal-rest (codes "/autofix") rest _ e in
    let (run', rest'', e'') = plus-went_on is_space rest' chosen e' in
    elim (or_else-sides (word_then (codes "approve") rest'') (word_then (codes "deny") rest'')
      e'') [
        | inl a ↦
            word_then-IsCommand (codes "approve") rest'' (unfold ℕ_discrete in refl) (inl refl) a
        | inr d ↦ word_then-IsCommand (codes "deny") rest'' (unfold ℕ_discrete in refl) (inr refl) d
      ]
