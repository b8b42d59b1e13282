-- ===== src/Lifecycle/Status/Laws.antt =====
-- src/activities/lifecycle.py: `post_status`, called again on the state that it returned.
use agentic_temporal_wf.Base.{
  ℕ, ◌⊎◌, inl, inr, Option, Option-cases, ◌≡◌, refl, ap, ◌∙◌, true, is_some, none, some, arith,
  ◌++◌,
}
use agentic_temporal_wf.Base.{returns}
use agentic_temporal_wf.Base.Text.{codes, show}
use agentic_temporal_wf.Models.{WorkflowState, PrRef}
use agentic_temporal_wf.Lifecycle.Status.{
  Reply, response, no_response, patch, HttpRequest, post_status, comment_request,
}

-- The update of a comment.
abbrev pub update_of : PrRef → ℕ → HttpRequest
update_of pr id = record {
  method = patch;
  url =
      codes "https://api.github.com/repos/"
      ++ pr.owner
      ++ codes "/"
      ++ pr.repo
      ++ codes "/issues/comments/"
      ++ show id;
}

-- The state but for the two identifiers that `post_status` fills in.
abbrev pub forget_ids : WorkflowState → WorkflowState
forget_ids s = record s { posted_status_comment_id = none; last_check_run_id = none }

pub post_status-forget_ids :
    (comment check : Reply) (s : WorkflowState) {t : WorkflowState}
    → post_status comment check s ≡ returns t
    → forget_ids t ≡ forget_ids s
unfolding post_status
post_status-forget_ids comment check s h = ground arith

pub post_status-comment_id :
    (comment check : Reply) (s : WorkflowState) {t : WorkflowState}
    → post_status comment check s ≡ returns t
    → (is_some t.posted_status_comment_id ≡ true)
      × (is_some s.posted_status_comment_id ≡ true
          → t.posted_status_comment_id ≡ s.posted_status_comment_id)
unfolding post_status
post_status-comment_id comment check s h = ground arith

post_status-id :
    (comment check : Reply) (s : WorkflowState) {t : WorkflowState}
    → post_status comment check s ≡ returns t
    → (id : ℕ) × (t.posted_status_comment_id ≡ some id)
      × ((s.posted_status_comment_id ≡ some id)
          ⊎ ((s.posted_status_comment_id ≡ none)
              × ((status : ℕ) × (comment ≡ response status (some id)))))
unfolding post_status
post_status-id no_response check s {t} h = elim (Option-cases s.posted_status_comment_id) [
  | inl fresh ↦ absurd (ground (arith, fresh, h))
  | inr (id, known) ↦ (id, ground (arith, known, h), inl known)
]
post_status-id (response status none) check s {t} h =
    elim (Option-cases s.posted_status_comment_id) [
      | inl fresh ↦ absurd (ground (arith, fresh, h))
      | inr (id, known) ↦ (id, ground (arith, known, h), inl known)
    ]
post_status-id (response status (some n)) check s {t} h =
    elim (Option-cases s.posted_status_comment_id) [
      | inl fresh ↦ (n, ground (arith, fresh, h), inr (fresh, (status, refl)))
      | inr (id, known) ↦ (id, ground (arith, known, h), inl known)
    ]

request_of_id :
    (t : WorkflowState) {id : ℕ}
    → t.posted_status_comment_id ≡ some id
    → comment_request t ≡ update_of t.pr id
unfolding comment_request
request_of_id t {id} named =
    ap (λ (o : Option ℕ). comment_request (record t { posted_status_comment_id = o })) named
    ∙ ground arith

-- After a success, the next status is a `PATCH` to one comment of the pull request: the one that the
-- state had named already, or else the one whose identifier GitHub gave in the reply to the `POST`.
-- But for the two identifiers that are filled in, the state comes back as it was sent.
pub post_status-one_comment :
    (comment check : Reply) (s : WorkflowState) {t : WorkflowState}
    → post_status comment check s ≡ returns t
    → ((id : ℕ) × (comment_request t ≡ update_of s.pr id)
        × ((s.posted_status_comment_id ≡ some id)
            ⊎ ((s.posted_status_comment_id ≡ none)
                × ((status : ℕ) × (comment ≡ response status (some id))))))
      × (forget_ids t ≡ forget_ids s)
unfolding comment_request
post_status-one_comment comment check s {t} h =
    let same = post_status-forget_ids comment check s h in
    let pr = ap (λ (x : WorkflowState). x.pr) same in
    let (id, named, source) = post_status-id comment check s h in
    let asked : comment_request t ≡ update_of t.pr id = request_of_id t named in
    ((id, asked ∙ ap (λ (x : PrRef). update_of x id) pr, source), same)
