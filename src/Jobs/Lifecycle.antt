-- ===== src/Jobs/Lifecycle.antt =====
-- src/jobs.rs: the states that a job goes through under `cancel`, `progress` and
-- `finish_with_outcome`, as a relation.
use sirius_asset_updater.Base.{
  Text, Bool, true, false, Option, none, some, ◌≡◌, refl, subst, arith, inl, inr, Bool-cases,
}
use sirius_asset_updater.Jobs.Types.{
  JobResult, ok, err, ok-injective, Status, queued, running, cancelling, completed, failed,
  cancelled, Progress, Job, Outcome, occupies_slot,
}
use sirius_asset_updater.Jobs.Transitions.{
  cancel_job, cancelled_status, progress_job, finish_job, finished_status, finished, finish_fault,
  other_region,
}

-- What the methods that edit a job may do to its status; `claim` adds the step from queued to running.
pub data Moves : Status → Status → Type 0 where
  drops : Moves queued cancelled
  stops : Moves running cancelling
  stops_again : Moves cancelling cancelling
  works : Moves running running
  ends_well : Moves running completed
  ends_badly : Moves running failed
  ends_cancelled : Moves cancelling cancelled

-- The edges, for `search`.
ruleset status_edges = (drops, stops, stops_again, works, ends_well, ends_badly, ends_cancelled)

-- The optional fields agree with the status: a failure code exactly on failed jobs, an outcome on
-- completed ones at most.
abbrev pub Coherent : Status → Option Outcome → Option Text → Type 0
Coherent completed outcome failure = failure ≡ none
Coherent failed outcome failure = (outcome ≡ none) × ((code : Text) × (failure ≡ some code))
Coherent _ outcome failure = (outcome ≡ none) × (failure ≡ none)

abbrev pub IsCoherent : Job → Type 0
IsCoherent j = Coherent j.status j.outcome j.failure

-- A job after an edit: its identity is kept, its status moves.
pub record Edits (j j' : Job) : Type 0 where
  pub id : j'.id ≡ j.id
  pub request : j'.request ≡ j.request
  pub created_at : j'.created_at ≡ j.created_at
  pub retry_of : j'.retry_of ≡ j.retry_of
  pub idempotency : j'.idempotency_sha256 ≡ j.idempotency_sha256
  pub moves : Moves j.status j'.status

Edits-status : (j : Job) (st : Status) → Moves j.status st → Edits j (record j { status = st })
Edits-status j st m = record {
  id = refl;
  request = refl;
  created_at = refl;
  retry_of = refl;
  idempotency = refl;
  moves = m;
}

cancelled_status-Moves : (st st' : Status) → cancelled_status st ≡ ok st' → Moves st st'
unfolding cancelled_status
cancelled_status-Moves queued st h = subst (Moves queued) (ok-injective h) (search status_edges)
cancelled_status-Moves running st h = subst (Moves running) (ok-injective h) (search status_edges)
cancelled_status-Moves cancelling st h =
    subst (Moves cancelling) (ok-injective h) (search status_edges)
cancelled_status-Moves completed st h = cc
cancelled_status-Moves failed st h = cc
cancelled_status-Moves cancelled st h = cc

finished_status-Moves :
    (fault : Bool) (st st' : Status) → finished_status fault st ≡ ok st' → Moves st st'
unfolding finished_status
finished_status-Moves true running st h =
    subst (Moves running) (ok-injective h) (search status_edges)
finished_status-Moves false running st h =
    subst (Moves running) (ok-injective h) (search status_edges)
finished_status-Moves fault cancelling st h =
    subst (Moves cancelling) (ok-injective h) (search status_edges)
finished_status-Moves fault queued st h = cc
finished_status-Moves fault completed st h = cc
finished_status-Moves fault failed st h = cc
finished_status-Moves fault cancelled st h = cc

pub cancel_job-Edits : (j j' : Job) → cancel_job j ≡ ok j' → Edits j j'
unfolding cancel_job
cancel_job-Edits j j' h = go (cancelled_status j.status) refl h
  where
    go :
        (r : JobResult Status)
        → cancelled_status j.status ≡ r
        → elim r [ err e ↦ err e | ok st ↦ ok (record j { status = st }) ] ≡ ok j'
        → Edits j j'
    go (err e) c p = cc
    go (ok st) c p =
        subst (Edits j) (ok-injective p) (Edits-status j st (cancelled_status-Moves j.status st c))

working : (st : Status) → occupies_slot st ≡ true → Moves st st
working running h = search status_edges
working cancelling h = search status_edges
working queued h = cc
working completed h = cc
working failed h = cc
working cancelled h = cc

pub progress_job-Edits : (p : Progress) (j j' : Job) → progress_job p j ≡ ok j' → Edits j j'
unfolding progress_job
progress_job-Edits p j j' h = elim (Bool-cases (occupies_slot j.status)) [
  | inr idle ↦ absurd (ground arith)
  | inl busy ↦ subst (Edits j) (ok-injective (rw busy at h)) (record {
    id = refl;
    request = refl;
    created_at = refl;
    retry_of = refl;
    idempotency = refl;
    moves = working j.status busy;
  })
]

pub finish_job-Edits :
    (failure : Option Text) (outcome : Option Outcome) (j j' : Job)
    → finish_job failure outcome j ≡ ok j'
    → Edits j j'
unfolding finish_job
finish_job-Edits failure outcome j j' h = elim (Bool-cases (other_region outcome j)) [
  | inl bad ↦ absurd (ground arith)
  | inr good ↦ go (finished_status (finish_fault failure j) j.status) refl (rw good at h)
]
  where
    go :
        (r : JobResult Status)
        → finished_status (finish_fault failure j) j.status ≡ r
        → elim r [ err e ↦ err e | ok st ↦ ok (finished failure outcome j st) ] ≡ ok j'
        → Edits j j'
    go (err e) c p = cc
    go (ok st) c p = subst (Edits j) (ok-injective p) (record {
      id = refl;
      request = refl;
      created_at = refl;
      retry_of = refl;
      idempotency = refl;
      moves = finished_status-Moves (finish_fault failure j) j.status st c;
    })

-- The methods keep a job coherent.
cancel_job-IsCoherent : (j j' : Job) → cancel_job j ≡ ok j' → IsCoherent j → IsCoherent j'
unfolding cancel_job cancelled_status
cancel_job-IsCoherent j j' h c = ground arith

progress_job-IsCoherent :
    (p : Progress) (j j' : Job) → progress_job p j ≡ ok j' → IsCoherent j → IsCoherent j'
unfolding progress_job
progress_job-IsCoherent p j j' h c = ground arith

finish_job-IsCoherent :
    (failure : Option Text) (outcome : Option Outcome) (j j' : Job)
    → finish_job failure outcome j ≡ ok j'
    → IsCoherent j
    → IsCoherent j'
unfolding finish_job finished_status
finish_job-IsCoherent failure outcome j j' h c = ground arith

-- What every method that edits a job guarantees of it.
pub record IsEdit (j j' : Job) : Type 0 where
  pub keeps : Edits j j'
  pub coherent : IsCoherent j → IsCoherent j'

pub cancel_job-IsEdit : (j j' : Job) → cancel_job j ≡ ok j' → IsEdit j j'
cancel_job-IsEdit j j' h = record {
  keeps = cancel_job-Edits j j' h;
  coherent = cancel_job-IsCoherent j j' h;
}

pub progress_job-IsEdit : (p : Progress) (j j' : Job) → progress_job p j ≡ ok j' → IsEdit j j'
progress_job-IsEdit p j j' h = record {
  keeps = progress_job-Edits p j j' h;
  coherent = progress_job-IsCoherent p j j' h;
}

pub finish_job-IsEdit :
    (failure : Option Text) (outcome : Option Outcome) (j j' : Job)
    → finish_job failure outcome j ≡ ok j'
    → IsEdit j j'
finish_job-IsEdit failure outcome j j' h = record {
  keeps = finish_job-Edits failure outcome j j' h;
  coherent = finish_job-IsCoherent failure outcome j j' h;
}
