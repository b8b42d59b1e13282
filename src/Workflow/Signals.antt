-- ===== src/Workflow/Signals.antt =====
-- `on_event`: what a sequence of deliveries leaves in the queue.
use agentic_temporal_wf.Base.{true, false, ◌||◌, List, [], ◌∷◌, ◌++◌}
use agentic_temporal_wf.Base.{◌≡◌, refl, ◌∙◌, arith, append_assoc, append-nil, if◌then◌else◌}
use agentic_temporal_wf.Base.{◌==◌, contains, text_eq, contains-append, Bool-cases, inl, inr}
use agentic_temporal_wf.Base.Text.{Text}
use agentic_temporal_wf.Models.{GitHubEvent, WorkflowState}
use agentic_temporal_wf.Workflow.{record_event}

-- Deliveries in the order in which they arrive.
unfoldable pub deliver : List GitHubEvent → WorkflowState → WorkflowState
deliver [] s = s
deliver (e ∷ es) s = deliver es (record_event e s)

abbrev pub ids : List GitHubEvent → List Text
ids [] = []
ids (e ∷ es) = e.delivery_id ∷ ids es

-- The deliveries that are new: not among `seen`, and not preceded by one of the same id.
abbrev pub new_deliveries : List Text → List Text → List GitHubEvent → List GitHubEvent
new_deliveries seen earlier [] = []
new_deliveries seen earlier (e ∷ es) =
    let rest = new_deliveries seen (earlier ++ e.delivery_id ∷ []) es in
    if contains seen e.delivery_id || contains earlier e.delivery_id then rest else e ∷ rest

-- The state that `deliver` leaves, all but its set of ids.
abbrev pub with_queue : WorkflowState → List GitHubEvent → List Text → WorkflowState
with_queue s q d = record s { pending_events = q; processed_delivery_ids = d }

pub deliver-ids :
    (es : List GitHubEvent) (s : WorkflowState) (id : Text)
    → contains (deliver es s).processed_delivery_ids id
      ≡ (contains s.processed_delivery_ids id || contains (ids es) id)
unfolding deliver record_event
deliver-ids [] s id = ground arith
deliver-ids (e ∷ es) s id = ground (
  arith,
  deliver-ids es (record_event e s) id,
  contains-append s.processed_delivery_ids (e.delivery_id ∷ []) id,
)

pub contains-snoc :
    (a b : Text) (seen earlier : List Text)
    → (contains seen a || contains (earlier ++ b ∷ []) a)
      ≡ ((contains seen a || contains earlier a) || a == b)
contains-snoc a b seen earlier = ground (arith, contains-append earlier (b ∷ []) a)

-- The ids of `s` are those of `seen` and `earlier` together.
abbrev Knows : WorkflowState → List Text → List Text → Type 0
Knows s seen earlier =
    (id : Text) → contains s.processed_delivery_ids id ≡ (contains seen id || contains earlier id)

Knows-old :
    (e : GitHubEvent) (s : WorkflowState) (seen earlier : List Text)
    → contains s.processed_delivery_ids e.delivery_id ≡ true
    → Knows s seen earlier
    → Knows s seen (earlier ++ e.delivery_id ∷ [])
Knows-old e s seen earlier old h id =
    ground (arith, h id, h e.delivery_id, contains-snoc id e.delivery_id seen earlier)

Knows-new :
    (e : GitHubEvent) (s : WorkflowState) (seen earlier : List Text)
    → contains s.processed_delivery_ids e.delivery_id ≡ false
    → Knows s seen earlier
    → Knows (record_event e s) seen (earlier ++ e.delivery_id ∷ [])
unfolding record_event
Knows-new e s seen earlier new h id = ground (
  arith,
  h id,
  contains-snoc id e.delivery_id seen earlier,
  contains-append s.processed_delivery_ids (e.delivery_id ∷ []) id,
)

record_event-old :
    (e : GitHubEvent) (s : WorkflowState)
    → contains s.processed_delivery_ids e.delivery_id ≡ true
    → record_event e s ≡ s
unfolding record_event
record_event-old e s old = rw old

record_event-new :
    (e : GitHubEvent) (s : WorkflowState)
    → contains s.processed_delivery_ids e.delivery_id ≡ false
    → (record_event e s).pending_events ≡ s.pending_events ++ e ∷ []
unfolding record_event
record_event-new e s new = rw new

deliver-queue_from :
    (es : List GitHubEvent) (s : WorkflowState) (seen earlier : List Text)
    → Knows s seen earlier
    → (deliver es s).pending_events ≡ s.pending_events ++ new_deliveries seen earlier es
unfolding deliver
deliver-queue_from [] s seen earlier h = rw append-nil
deliver-queue_from (e ∷ es) s seen earlier h =
    elim (Bool-cases (contains s.processed_delivery_ids e.delivery_id)) [
      | inl old ↦
          let rest =
            deliver-queue_from es s seen (earlier ++ e.delivery_id ∷ [])
              (Knows-old e s seen earlier old h) in
          ground (arith, record_event-old e s old, h e.delivery_id, rest)
      | inr new ↦
          let rest =
            deliver-queue_from es (record_event e s) seen (earlier ++ e.delivery_id ∷ [])
              (Knows-new e s seen earlier new h) in
          let more = new_deliveries seen (earlier ++ e.delivery_id ∷ []) es in
          ground (
            arith,
            record_event-new e s new,
            h e.delivery_id,
            rest,
            append_assoc s.pending_events (e ∷ []) more,
          )
    ]

deliver-frame :
    (es : List GitHubEvent) (s : WorkflowState)
    → with_queue (deliver es s) [] [] ≡ with_queue s [] []
unfolding deliver record_event
deliver-frame [] s = refl
deliver-frame (e ∷ es) s = deliver-frame es (record_event e s) ∙ ground arith

-- The queue grows by exactly the new deliveries, in the order of their arrival and each id once;
-- an id counts as processed afterwards if it did before or was delivered; nothing else changes.
pub deliver_lem :
    (es : List GitHubEvent) (s : WorkflowState)
    → ((deliver es s).pending_events
        ≡ s.pending_events ++ new_deliveries s.processed_delivery_ids [] es)
      × ((id : Text)
          → contains (deliver es s).processed_delivery_ids id
            ≡ (contains s.processed_delivery_ids id || contains (ids es) id))
      × (with_queue (deliver es s) [] [] ≡ with_queue s [] [])
deliver_lem es s = (
  deliver-queue_from es s s.processed_delivery_ids [] (λ id. ground arith),
  deliver-ids es s,
  deliver-frame es s,
)

deliver_known :
    (es : List GitHubEvent) (s : WorkflowState)
    → ((id : Text) → contains (ids es) id ≡ true → contains s.processed_delivery_ids id ≡ true)
    → deliver es s ≡ s
unfolding deliver
deliver_known [] s h = refl
deliver_known (e ∷ es) s h =
    let old = record_event-old e s (h e.delivery_id (ground arith)) in
    rw old (deliver_known es s (λ id m. h id (ground arith)))

-- Deliveries that are sent again change nothing.
pub deliver_again :
    (es : List GitHubEvent) (s : WorkflowState) → deliver es (deliver es s) ≡ deliver es s
deliver_again es s = deliver_known es (deliver es s) (λ id m. ground (arith, deliver-ids es s id))
