-- ===== src/Iteration/Activity/Laws.antt =====
-- src/activities/agent_iteration.py: the messages on which the plan depends.
use agentic_temporal_wf.Base.{
  ◌+◌, Bool, true, false, not, Option, none, some, List, [], ◌∷◌, ◌≡◌, ◌∙◌, arith, inl, inr,
  Bool-cases, all, length, get_or,
}
use agentic_temporal_wf.Base.{Outcome, returns, raises, >>=-eq-returns}
use agentic_temporal_wf.Base.Text.{Text, codes}
use agentic_temporal_wf.Base.Json.{Json, null, get}
use agentic_temporal_wf.Iteration.Activity.{
  Validate, Progress, counted, is_text, items_of, count_calls, on_message, on_loaded, consume,
  conclude,
}

abbrev said_result : Outcome (Option Json) → Bool
said_result (returns kind) = is_text (codes "result") kind
said_result (raises _) = false

abbrev result_message : Option Json → Bool
result_message none = false
result_message (some msg) = said_result (get msg (codes "type"))

-- The line is a message of the type `result`.
abbrev pub is_result : (Text → Option Json) → Text → Bool
is_result loads line = result_message (loads line)

-- The plan depends on these two alone.
record SameVerdict (p q : Progress) : Type 0 where
  text : p.final_text ≡ q.final_text
  subtype : p.final_subtype ≡ q.final_subtype
  count : p.messages ≡ q.messages

on_message-other :
    (msg : Json) (p : Progress) {q : Progress}
    → said_result (get msg (codes "type")) ≡ false
    → on_message msg p ≡ returns q
    → SameVerdict q p
unfolding on_message
on_message-other msg p other e =
    let (kind, k1, e1) = >>=-eq-returns (get msg (codes "type")) _ e in
    let not_result : is_text (codes "result") kind ≡ false = rw k1 at other in
    elim (Bool-cases (is_text (codes "assistant") kind)) [
      | inl assistant ↦
          let (content, _, e2) =
            >>=-eq-returns (get msg (codes "content")) _ (rw assistant at e1) in
          let (blocks, _, e3) = >>=-eq-returns (items_of (get_or content null)) _ e2 in
          let (n, _, e4) = >>=-eq-returns (count_calls blocks p.tool_calls) _ e3 in
          record {
            text = ground (arith, e4);
            subtype = ground (arith, e4);
            count = ground (arith, e4);
          }
      | inr neither ↦
          let e2 = rw (neither, not_result) at e1 in
          record {
            text = ground (arith, e2);
            subtype = ground (arith, e2);
            count = ground (arith, e2);
          }
    ]

on_loaded-other :
    (msg : Option Json) (p : Progress) {q : Progress}
    → result_message msg ≡ false
    → on_loaded msg p ≡ returns q
    → SameVerdict q p
on_loaded-other none p other e = record {
  text = ground (arith, e);
  subtype = ground (arith, e);
  count = ground (arith, e);
}
on_loaded-other (some msg) p other e = on_message-other msg p other e

-- Lines with no result message among them, if they are read to the end, are each counted, and leave
-- the plan as it was: whatever comes after the last result message has no say in it.
pub consume-conclude :
    (validate : Validate) (repr : Json → Text) (loads : Text → Option Json) (lines : List Text)
    (p q : Progress)
    → all (λ line. not (is_result loads line)) lines ≡ true
    → consume loads lines p ≡ returns q
    → (conclude validate repr q ≡ conclude validate repr p)
      × (q.messages ≡ p.messages + length lines)
unfolding consume conclude
consume-conclude validate repr loads [] p q h e = (ground (arith, e), ground (arith, e))
consume-conclude validate repr loads (line ∷ lines) p q h e =
    let (r, r1, e1) = >>=-eq-returns (on_loaded (loads line) (counted p)) _ e in
    let (same, more) = consume-conclude validate repr loads lines r q (ground arith) e1 in
    let v = on_loaded-other (loads line) (counted p) (ground arith) r1 in
    (same ∙ ground (arith, v.text, v.subtype), ground (arith, more, v.count))
