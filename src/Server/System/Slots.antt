-- ===== src/Server/System/Slots.antt =====
-- The slots and the job counts of the server's threads: a balance between what the threads hold and
-- what the pool and the connections say, and the changes that keep it.
use image_processing_engine.Prelude.{
  ℕ, ◌+◌, ◌-◌, ◌%◌, ◌^◌, ◌<◌, ◌≡◌, ◌≢◌, ◌⊎◌, inl, inr, Bool, List, ◌∷◌, Option, none, some, arith,
  ◌==◌, if◌then◌else◌, get_elem?, Option-cases, Bool-cases,
}
use image_processing_engine.SlotPool.{SlotPool, no_owner, granted, claim, resume, release}
use image_processing_engine.SlotPool.Ledger.{occurrences, get_elem?-set}
use image_processing_engine.SlotPool.Invariant.{IsValid, claim-IsValid, resume-IsValid}
use image_processing_engine.SlotPool.Release.{release_cases, release-IsValid}
use image_processing_engine.SlotPool.Grants.{IsGrant, claim-IsGrant, resume-IsGrant, release_owned}
use image_processing_engine.Server.{
  Response, Connection, close_outbox_if_done, job_submitted, job_retired, answer, answer_job,
}
use image_processing_engine.Server.Worker.{InFlight, at_connection}

-- 1 for a slot that `owner_of` marks as someone's, 0 for any other number.
abbrev pub owned_flag : Option ℕ → ℕ
owned_flag none = 0
owned_flag (some o) = if o == no_owner then 0 else 1

abbrev pub owned : SlotPool → ℕ → ℕ
owned slots i = owned_flag (get_elem? slots.owner_of i)

-- A number of jobs that pass a test, the slots that readers fill, and what they stand against: the
-- pool marks as owned just the slots that a reader or one job holds, each by one of them, and a
-- connection's count is the number of its jobs.
pub record IsHeld (jobs : (InFlight → Bool) → ℕ) (claimed : List ℕ) (slots : SlotPool)
    (connections : ℕ → Connection) : Type 0 where
  pub valid : IsValid slots
  pub held : (i : ℕ) → occurrences i claimed + jobs (λ e. e.slot == i) ≡ owned slots i
  pub owed : (id : ℕ) → jobs (λ e. e.connection == id) ≡ (connections id).outstanding
  pub small : (id : ℕ) → (connections id).outstanding < 2 ^ 64

claim-owned :
    {p q : SlotPool} (owner i k : ℕ)
    → owner ≢ no_owner
    → IsGrant p q owner i
    → owned q k ≡ (if i == k then 1 else 0) + owned p k
claim-owned {p} {q} owner i k real g = elim (Bool-cases (i == k)) [
  | inl same ↦
      let e : i ≡ k = ground arith in rw (same, ← e, g.was_free, g.now_owned) (ground arith)
  | inr other ↦ rw (other, g.others_kept k (ground arith)) (omega arith)
]

release-owned :
    (p : SlotPool) {q : SlotPool} (i k : ℕ)
    → release p i ≡ some q
    → owned p k ≡ (if i == k then 1 else 0) + owned q k
release-owned p {q} i k e =
    let (o, mine, real, made) = release_cases p i e in
    rw made (ground (arith, get_elem?-set p.owner_of i k o no_owner mine, mine))

-- A slot that is marked as owned can be released.
pub owned-release :
    {p : SlotPool} (i : ℕ) → IsValid p → 0 < owned p i → (q : SlotPool) × (release p i ≡ some q)
owned-release {p} i v h = elim (Option-cases (get_elem? p.owner_of i)) [
  | inl out ↦ absurd (omega (arith, rw out at h))
  | inr (o, at_o) ↦
      let real : o ≢ no_owner = λ e. absurd (ground (arith, at_o, e, h)) in
      (_, release_owned o i v real at_o)
]

pub close_outbox_if_done-outstanding :
    (c : Connection) → (close_outbox_if_done c).outstanding ≡ c.outstanding
unfolding close_outbox_if_done
close_outbox_if_done-outstanding c = ground arith

pub outstanding-job_retired :
    (c : Connection)
    → 0 < c.outstanding
    → c.outstanding < 2 ^ 64
    → (job_retired c).outstanding + 1 ≡ c.outstanding
unfolding job_retired
outstanding-job_retired c some_job small = omega (
  arith,
  close_outbox_if_done-outstanding
      (record c { outstanding = (c.outstanding + (2 ^ 64 - 1)) % 2 ^ 64 }),
)

pub outstanding-answer_job :
    (response : Response) (c : Connection)
    → 0 < c.outstanding
    → c.outstanding < 2 ^ 64
    → (answer_job response c).outstanding + 1 ≡ c.outstanding
unfolding answer_job answer
outstanding-answer_job response c some_job small =
    outstanding-job_retired (answer response c) some_job small

module _ {jobs : (InFlight → Bool) → ℕ} {claimed : List ℕ} {slots : SlotPool}
    {connections : ℕ → Connection} (b : IsHeld jobs claimed slots connections) where
  granted-IsHeld :
      {next : SlotPool} (id i : ℕ)
      → id ≢ no_owner
      → IsValid next
      → IsGrant slots next id i
      → IsHeld jobs (i ∷ claimed) next connections
  granted-IsHeld id i real v g = record {
    valid = v;
    held = λ k. omega (arith, b.held k, claim-owned id i k real g);
    owed = b.owed;
    small = b.small;
  }

  -- A slot that `claim` or `resume` grants is one more that a reader fills.
  pub claimed-IsHeld :
      {next : SlotPool} (id i : ℕ)
      → id ≢ no_owner
      → (claim slots id ≡ granted i next) ⊎ (resume slots id ≡ granted i next)
      → IsHeld jobs (i ∷ claimed) next connections
  claimed-IsHeld id i real (inl g) =
      granted-IsHeld id i real (rw g at (claim-IsValid id b.valid real))
        (claim-IsGrant id i b.valid g)
  claimed-IsHeld id i real (inr g) =
      granted-IsHeld id i real (rw g at (resume-IsValid id b.valid real))
        (resume-IsGrant id i b.valid g)

  -- A reader gives back a slot that it fills.
  pub abandoned-IsHeld :
      {next : SlotPool} (i : ℕ) (rest : List ℕ)
      → ((k : ℕ) → occurrences k claimed ≡ (if i == k then 1 else 0) + occurrences k rest)
      → release slots i ≡ some next
      → IsHeld jobs rest next connections
  abandoned-IsHeld i rest counts e = record {
    valid = release-IsValid i b.valid e;
    held = λ k. omega (arith, b.held k, counts k, release-owned slots i k e);
    owed = b.owed;
    small = b.small;
  }

  -- A reader makes a job of its slot.
  pub offered-IsHeld :
      (entry : InFlight) (more : (InFlight → Bool) → ℕ) (rest : List ℕ)
      → ((k : ℕ) → occurrences k claimed ≡ (if entry.slot == k then 1 else 0) + occurrences k rest)
      → ((p : InFlight → Bool) → more p ≡ (if p entry then 1 else 0) + jobs p)
      → (connections entry.connection).outstanding < 2 ^ 64 - 1
      → IsHeld more rest slots (at_connection entry.connection job_submitted connections)
  unfolding job_submitted
  offered-IsHeld entry more rest counts grown room = record {
    valid = b.valid;
    held = λ k. omega (arith, b.held k, counts k, grown (λ e. e.slot == k));
    owed = λ id. ground (arith, b.owed id, grown (λ e. e.connection == id));
    small = λ id. ground (arith, b.small id);
  }

  -- It takes it back.
  pub withdrawn-IsHeld :
      (entry : InFlight) (fewer : (InFlight → Bool) → ℕ)
      → ((p : InFlight → Bool) → jobs p ≡ (if p entry then 1 else 0) + fewer p)
      → IsHeld fewer
          (entry.slot ∷ claimed)
          slots
          (at_connection entry.connection job_retired connections)
  withdrawn-IsHeld entry fewer shrunk = record {
    valid = b.valid;
    held = λ k. omega (arith, b.held k, shrunk (λ e. e.slot == k));
    owed = λ id. ground (
      arith,
      b.owed id,
      shrunk (λ e. e.connection == id),
      b.small id,
      outstanding-job_retired (connections id),
    );
    small = λ id. ground (
      arith,
      b.owed id,
      shrunk (λ e. e.connection == id),
      b.small id,
      outstanding-job_retired (connections id),
    );
  }

  -- The worker answers a job and gives its slot back.
  pub answered-IsHeld :
      {next : SlotPool} (entry : InFlight) (response : Response) (fewer : (InFlight → Bool) → ℕ)
      → ((p : InFlight → Bool) → jobs p ≡ (if p entry then 1 else 0) + fewer p)
      → release slots entry.slot ≡ some next
      → IsHeld fewer claimed next (at_connection entry.connection (answer_job response) connections)
  answered-IsHeld entry response fewer shrunk e = record {
    valid = release-IsValid entry.slot b.valid e;
    held =
        λ k. omega (arith, b.held k, shrunk (λ e. e.slot == k), release-owned slots entry.slot k e);
    owed = λ id. ground (
      arith,
      b.owed id,
      shrunk (λ e. e.connection == id),
      b.small id,
      outstanding-answer_job response (connections id),
    );
    small = λ id. ground (
      arith,
      b.owed id,
      shrunk (λ e. e.connection == id),
      b.small id,
      outstanding-answer_job response (connections id),
    );
  }
