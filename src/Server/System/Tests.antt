-- ===== src/Server/System/Tests.antt =====
-- Witnesses of the theorems on the worker and the threads: one slot, and one frame of a gray pixel
-- that is claimed, counted, queued, and answered once the queue is closed.
use image_processing_engine.Prelude.{
  ℕ, ◌+◌, ◌*◌, ◌/◌, ◌%◌, ◌^◌, ◌≡◌, ◌≢◌, ◌⊎◌, refl, inl, arith, true, false, List, [], ◌∷◌, ◌++◌,
  none, some, ltb, leb,
}
use image_processing_engine.Prelude.Integers.{pos, negsuc}
use image_processing_engine.OpChain.{OpKind}
use image_processing_engine.CpuOps.FloatOps.{Arithmetic}
use image_processing_engine.SlotPool
use image_processing_engine.SlotPool.{
  SlotPool, no_owner, claim, can_claim, finish_claim, take_back, release, slot,
}
use image_processing_engine.SlotPool.Ledger
use image_processing_engine.SlotPool.Invariant.{IsValid}
use image_processing_engine.BoundedQueue
use image_processing_engine.BoundedQueue.{BoundedQueue, popped, push, pop, try_pop}
use image_processing_engine.CpuBackend
use image_processing_engine.CpuBackend.{CpuBackend, Completion}
use image_processing_engine.Server.{Response, job_submitted}
use image_processing_engine.Server.Worker.{
  QueuedFrame, Worker, at_connection, submit, retire, round, next, returned, worker_loop,
}
use image_processing_engine.Server.Worker.Rounds.{cpu_backend}
use image_processing_engine.Server.Worker.Replies.{IsAnswered, round-IsAnswered}
use image_processing_engine.Server.System.{
  System, start, Reach, claims, offers, pushes, closes_queue, begun, after,
}
use image_processing_engine.Server.System.Slots.{owned}
use image_processing_engine.Server.System.Jobs.{IsSafe}
use image_processing_engine.Server.System.Safety.{Reach-IsSafe}
use image_processing_engine.Server.System.NoThrow.{Reach-NoThrow}
use image_processing_engine.Server.System.Drain.{worker_loop-closed}

abbrev whole_numbers : Arithmetic ℕ
whole_numbers = record {
  of_int = λ n. elim n [ pos k ↦ k | negsuc k ↦ 0 ];
  of_thousandths = λ n. n / 1000;
  add = λ a b. a + b;
  mul = λ a b. a * b;
  div = λ a b. a / b;
  neg = λ a. a;
  sqrt = λ a. a;
  exp = λ a. a;
  less = ltb;
  at_least = λ a b. leb b a;
  ceil = λ a. pos a;
  lround = λ a. pos a;
}

abbrev gray_bytes : ℕ → List ℕ
gray_bytes address = 200 ∷ []

abbrev one_free : SlotPool
one_free = record {
  base = 4096;
  count = 1;
  bytes = 4;
  per_owner_cap = 1;
  free_list = 0 ∷ [];
  owner_of = no_owner ∷ [];
  held_by_owner = [];
  blocked_claims = 0;
  closed = false;
}

one_free_made : SlotPool.init 4096 1 4 1 ≡ some one_free
unfolding SlotPool.init
one_free_made = refl

abbrev none_free : SlotPool
none_free = record one_free { free_list = []; owner_of = 7 ∷ []; held_by_owner = (7, 1) ∷ [] }

abbrev inverted : QueuedFrame ℕ
inverted = record {
  connection = 7;
  seq_num = 3;
  flags = 1;
  slot = 0;
  width = pos 1;
  height = pos 1;
  channels = pos 1;
  chain = record { kind = OpKind.invert; param = 0 } ∷ [];
}

abbrev empty_server : System ℕ CpuBackend
empty_server = start gray_bytes CpuBackend.init one_free 2

abbrev one_claimed : System ℕ CpuBackend
one_claimed = record empty_server {
  worker = record empty_server.worker { slots = none_free };
  claimed = 0 ∷ [];
}

abbrev one_offered : System ℕ CpuBackend
one_offered = record one_claimed {
  worker = record one_claimed.worker {
    connections = at_connection 7 job_submitted one_claimed.worker.connections;
  };
  claimed = [];
  offered = inverted ∷ [];
}

abbrev one_queued : System ℕ CpuBackend
one_queued = record one_offered {
  queue = record { items = inverted ∷ []; capacity = 2; high_water = 1; closed = false };
  offered = [];
}

one_queued_reached : Reach (cpu_backend whole_numbers) empty_server one_queued
unfolding claim push BoundedQueue.init Ledger.find Ledger.assign
one_queued_reached =
    after
      (after (after begun (claims 7 0 (λ e. absurd (omega (arith, e))) (inl refl)))
        (offers [] [] inverted refl (omega arith)))
      (pushes [] [] inverted refl refl)

Reach-IsSafe_example : IsSafe one_queued
Reach-IsSafe_example =
    Reach-IsSafe (cpu_backend whole_numbers) gray_bytes CpuBackend.init 4096 1 4 1 2 one_free_made
      one_queued_reached

Reach-NoThrow_example :
    ((completion : Completion) → retire one_queued.worker completion ≢ none)
    × ((frame : QueuedFrame ℕ) (queue : BoundedQueue (QueuedFrame ℕ))
        → (pop one_queued.queue ≡ popped frame queue)
          ⊎ (try_pop one_queued.queue ≡ popped frame queue)
        → submit (cpu_backend whole_numbers) one_queued.worker frame ≢ none)
    × ((before behind : List ℕ) (i : ℕ)
        → one_queued.claimed ≡ before ++ (i ∷ behind)
        → release one_queued.worker.slots i ≢ none)
Reach-NoThrow_example =
    Reach-NoThrow (cpu_backend whole_numbers) gray_bytes CpuBackend.init 4096 1 4 1 2 one_free_made
      one_queued_reached

abbrev rest : BoundedQueue (QueuedFrame ℕ)
rest = record { items = []; capacity = 2; high_water = 1; closed = false }

one_queued-IsValid : IsValid one_queued.worker.slots
one_queued-IsValid =
    (Reach-IsSafe (cpu_backend whole_numbers) gray_bytes CpuBackend.init 4096 1 4 1 2 one_free_made
      one_queued_reached).valid

round-IsAnswered_example :
    (v : Worker CpuBackend) × (response : Response) × (round
        (cpu_backend whole_numbers)
        one_queued.worker
        one_queued.queue
      ≡ next v rest)
    × IsAnswered whole_numbers inverted one_queued.worker v response
unfolding pop
round-IsAnswered_example =
    round-IsAnswered whole_numbers one_queued.worker inverted one_queued.queue rest 7
      (record { no_jobs = refl; no_completions = refl }) one_queued-IsValid refl
      (λ e. absurd (omega (arith, e))) refl

abbrev closed_server : System ℕ CpuBackend
closed_server = record one_queued { queue = record one_queued.queue { closed = true } }

closed_server_reached : Reach (cpu_backend whole_numbers) empty_server closed_server
unfolding BoundedQueue.close
closed_server_reached = after one_queued_reached closes_queue

worker_loop-closed_example :
    (w : Worker CpuBackend) × (worker_loop
        (cpu_backend whole_numbers)
        2
        closed_server.worker
        closed_server.queue
      ≡ returned w)
    × ((w.frames_completed + w.frames_failed) % 2 ^ 64 ≡ 1)
    × (w.in_flight ≡ [])
    × ((id : ℕ) → (w.connections id).outstanding ≡ 0)
    × ((i : ℕ) → owned w.slots i ≡ 0)
worker_loop-closed_example =
    worker_loop-closed whole_numbers gray_bytes CpuBackend.init 4096 1 4 1 2 one_free_made
      closed_server_reached (record { no_jobs = refl; no_completions = refl }) refl refl refl
