-- ===== src/CudaBackend/Kept.antt =====
-- The jobs of the CUDA backend through its sweeps and recreations: a job in flight becomes a
-- completion, and no job is lost or reported twice.
use image_processing_engine.Prelude.{
  ℕ, zero, suc, ◌+◌, ◌≡◌, refl, Bool, true, false, ◌&&◌, List, [], ◌∷◌, ◌++◌, Option, none, some,
  arith, ◌==◌, if◌then◌else◌, length,
}
use image_processing_engine.Prelude.Predicates.{count_if, count_if-append}
use image_processing_engine.Prelude.Integers.{pos}
use image_processing_engine.Image.{Image}
use image_processing_engine.OpChain.Numerics.{Floats}
use image_processing_engine.CpuBackend.{Completion}
use image_processing_engine.CudaBackend.{
  Failure, cuda_error, other_error, Answer, success, not_ready, failure, query, elapsed, other_call,
  Driver, StreamSlot, idle_slot, CudaBackend, Attempt, returned, threw,
}
use image_processing_engine.CudaBackend.Streams.{
  failed_completion, made_completion, fail_job, called, is_success, output_of, retire_image,
  retire_done, retire_slot, sweep, retire_ready_streams, build_loop, build_stream_slots,
  report_lost, has_value, rebuild, torn_down, recreate_context, caught, recover,
}

-- How many completions carry a handle, and how many busy slots.
abbrev pub reported : ℕ → List Completion → ℕ
reported h = count_if (λ c. c.handle == h)

abbrev pub is_running : ℕ → StreamSlot → Bool
is_running h slot = slot.busy && slot.handle == h

abbrev pub running : ℕ → List StreamSlot → ℕ
running h = count_if (is_running h)

-- So many jobs with a handle are in flight or completed, and the next handle is the given one.
pub record Holds {R : Floats} (h n next : ℕ) (b : CudaBackend R) : Type 0 where
  pub jobs : reported h b.completed + running h b.streams ≡ n
  pub counter : b.next_handle ≡ next

module _ {R : Floats} where
  -- The same where a function returned and where it threw.
  abbrev pub Keeps : ℕ → ℕ → ℕ → Attempt R → Type 0
  Keeps h n next (returned b) = Holds h n next b
  Keeps h n next (threw why b) = Holds h n next b

  Keeps-if :
      (h n next : ℕ) (t : Bool) (p q : Attempt R)
      → (t ≡ true → Keeps h n next p)
      → (t ≡ false → Keeps h n next q)
      → Keeps h n next (if t then p else q)
  Keeps-if h n next true p q yes_case no_case = yes_case refl
  Keeps-if h n next false p q yes_case no_case = no_case refl

  pub fail_job-Holds :
      (h n next : ℕ) (b : CudaBackend R) (handle : ℕ)
      → Holds h n next b
      → Holds h (n + (if handle == h then 1 else 0)) next (fail_job b handle)
  unfolding fail_job
  fail_job-Holds h n next b handle k = record {
    jobs = omega (
      arith,
      k.jobs,
      count_if-append (λ (c : Completion). c.handle == h) b.completed
          (failed_completion handle ∷ []),
    );
    counter = k.counter;
  }

report_lost-reported :
    (h : ℕ) (slots : List StreamSlot) → reported h (report_lost slots) ≡ running h slots
unfolding report_lost
report_lost-reported h [] = refl
report_lost-reported h (slot ∷ rest) = ground (arith, report_lost-reported h rest)

module _ (driver : Driver) {R : Floats} (h n next : ℕ) where
  -- The sweep at one busy slot, `before` and `after` being the jobs of the other slots.
  module _ (before after : ℕ) (slot : StreamSlot) (busy : slot.busy ≡ true)
      (go : StreamSlot → CudaBackend R → Attempt R) (stop : Failure → CudaBackend R → Attempt R)
      (go_keeps : (s : StreamSlot) (c : CudaBackend R)
        → c.next_handle ≡ next
        → reported h c.completed + before + (if is_running h s then 1 else 0) + after ≡ n
        → Keeps h n next (go s c))
      (stop_keeps : (why : Failure) (c : CudaBackend R)
        → c.next_handle ≡ next
        → reported h c.completed + before + (if is_running h slot then 1 else 0) + after ≡ n
        → Keeps h n next (stop why c)) where
    retire_image-Keeps :
        (b : CudaBackend R) (image : Option Image)
        → b.next_handle ≡ next
        → reported h b.completed + before + (if is_running h slot then 1 else 0) + after ≡ n
        → Keeps h n next (retire_image driver slot b go stop image)
    unfolding retire_image
    retire_image-Keeps b none e k = stop_keeps other_error b e k
    retire_image-Keeps b (some image) e k =
        go_keeps (record slot { busy = false })
          (record b { completed = b.completed ++ (made_completion slot.handle image ∷ []) }) e
          (ground (
            arith,
            count_if-append (λ (c : Completion). c.handle == h) b.completed
                (made_completion slot.handle image ∷ []),
          ))

    retire_slot-Keeps :
        (i : ℕ) (b : CudaBackend R)
        → b.next_handle ≡ next
        → reported h b.completed + before + (if is_running h slot then 1 else 0) + after ≡ n
        → Keeps h n next (retire_slot driver i slot b go stop)
    unfolding retire_slot
    retire_slot-Keeps i b e k = by_answer (driver b.calls (query i))
      where
        retire_done-Keeps : Keeps h n next (retire_done driver i slot (called b) go stop)
        retire_done-Keeps =
            unfold retire_done in
            Keeps-if h n next (is_success (driver (b.calls + 1) (elapsed i))) _ _
              (λ _. retire_image-Keeps _ (output_of slot) e k) (λ _. stop_keeps cuda_error _ e k)

        by_answer :
            (a : Answer)
            → Keeps h n next (elim a [
              | success ↦ retire_done driver i slot (called b) go stop
              | not_ready ↦ go slot (called b)
              | failure ↦ stop cuda_error (called b)
            ])
        by_answer success = retire_done-Keeps
        by_answer not_ready = go_keeps slot (called b) e k
        by_answer failure = stop_keeps cuda_error (called b) e k

  sweep-Keeps :
      (swept rest : List StreamSlot) (b : CudaBackend R)
      → b.next_handle ≡ next
      → reported h b.completed + running h swept + running h rest ≡ n
      → Keeps h n next (sweep driver swept rest b)
  unfolding sweep
  sweep-Keeps swept [] b e k = record { jobs = omega (arith, k); counter = e }
  sweep-Keeps swept (slot ∷ rest) b e k =
      let go = λ (s : StreamSlot) (c : CudaBackend R). sweep driver (swept ++ (s ∷ [])) rest c in
      let go_keeps =
        λ (s : StreamSlot) (c : CudaBackend R) (same : c.next_handle ≡ next)
            (total : reported h c.completed
                + running h swept
                + (if is_running h s then 1 else 0)
                + running h rest
              ≡ n).
          sweep-Keeps (swept ++ (s ∷ [])) rest c same
            (omega (arith, total, count_if-append (is_running h) swept (s ∷ []))) in
      Keeps-if h n next slot.busy _ _
        (λ busy.
          retire_slot-Keeps (running h swept) (running h rest) slot busy go
            (λ why c. threw why (record c { streams = swept ++ (slot ∷ rest) })) go_keeps
            (λ why c same total. record {
              jobs = omega (arith, total, count_if-append (is_running h) swept (slot ∷ rest));
              counter = same;
            })
            (length swept) b e (omega (arith, k)))
        (λ _. go_keeps slot b e (omega (arith, k)))

  pub retire_ready_streams-Keeps :
      (b : CudaBackend R) → Holds h n next b → Keeps h n next (retire_ready_streams driver b)
  unfolding retire_ready_streams
  retire_ready_streams-Keeps b k = sweep-Keeps [] b.streams b k.counter (omega (arith, k.jobs))

  build_loop-Keeps :
      (left : ℕ) (b : CudaBackend R) → Holds h n next b → Keeps h n next (build_loop driver left b)
  unfolding build_loop
  build_loop-Keeps zero b k = k
  build_loop-Keeps (suc left) b k =
      Keeps-if h n next (is_success (driver b.calls other_call)) _ _
        (λ _. build_loop-Keeps left _ (record {
          jobs =
              omega
                (arith, k.jobs, count_if-append (is_running h) b.streams (idle_slot (pos 0) ∷ []));
          counter = k.counter;
        }))
        (λ _. record { jobs = k.jobs; counter = k.counter })

  -- Building starts from no slots, so no job is in flight.
  pub build_stream_slots-Keeps :
      (b : CudaBackend R)
      → reported h b.completed ≡ n
      → b.next_handle ≡ next
      → Keeps h n next (build_stream_slots driver b)
  unfolding build_stream_slots
  build_stream_slots-Keeps b done e =
      let k : Holds h n next (record b { streams = [] }) = record {
        jobs = omega (arith, done);
        counter = e;
      } in
      Keeps-if h n next (b.slot_bytes == 0) _ _ (λ _. k)
        (λ _. build_loop-Keeps b.stream_count (record b { streams = [] }) k)

  rebuild-Keeps :
      (b : CudaBackend R)
      → reported h b.completed ≡ n
      → b.next_handle ≡ next
      → b.streams ≡ []
      → Keeps h n next (rebuild driver b)
  unfolding rebuild
  rebuild-Keeps b done e empty =
      Keeps-if h n next (has_value b.host_slots) _ _
        (λ _.
          Keeps-if h n next (is_success (driver b.calls other_call)) _ _
            (λ _. build_stream_slots-Keeps (called b) done e)
            (λ _. record { jobs = rw empty (omega (arith, done)); counter = e }))
        (λ _. build_stream_slots-Keeps b done e)

  -- A recreation turns every job in flight into a completion.
  pub recreate_context-Keeps :
      (b : CudaBackend R) → Holds h n next b → Keeps h n next (recreate_context driver b)
  unfolding recreate_context
  recreate_context-Keeps b k =
      let done : reported h (b.completed ++ report_lost b.streams) ≡ n = omega (
        arith,
        k.jobs,
        count_if-append (λ (c : Completion). c.handle == h) b.completed (report_lost b.streams),
        report_lost-reported h b.streams,
      ) in
      Keeps-if h n next (is_success (driver b.calls other_call)) _ _
        (λ _. rebuild-Keeps (record (called (torn_down b)) { context = true }) done k.counter refl)
        (λ _. record { jobs = omega (arith, done); counter = k.counter })

  pub caught-Holds : (a : Attempt R) → Keeps h n next a → Holds h n next (caught a)
  caught-Holds (returned b) k = k
  caught-Holds (threw why b) k = k

  pub recover-Holds : (b : CudaBackend R) → Holds h n next b → Holds h n next (recover driver b)
  unfolding recover
  recover-Holds b k = caught-Holds (recreate_context driver b) (recreate_context-Keeps b k)
