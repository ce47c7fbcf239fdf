-- ===== src/CpuBackend/Handles.antt =====
-- The handles over a run of submits and polls: each job's completion is delivered once, in order.
use mathlib.Core.List.{append_assoc, append-nil}
use image_processing_engine.Prelude.{
  ℕ, zero, suc, ◌+◌, ◌-◌, ◌^◌, ◌≤◌, ◌<◌, ◌≡◌, refl, sym, ap, ◌∙◌, List, [], ◌∷◌, ◌++◌, map, arith,
  length, length-append,
}
use image_processing_engine.CpuOps.FloatOps.{Arithmetic}
use image_processing_engine.CpuBackend.{
  FrameJob, Completion, CpuBackend, init, submit, run_job, poll_completions,
}

-- A backend with the handles that `submit` returned and the completions that `poll_completions` gave
-- out, oldest first.
pub record Traced : Type 0 where
  pub backend : CpuBackend
  pub issued : List ℕ
  pub delivered : List Completion

abbrev pub start : Traced
start = record { backend = init; issued = []; delivered = [] }

abbrev pub handles : List Completion → List ℕ
handles completions = map (λ (c : Completion). c.handle) completions

-- The numbers from `first` on.
abbrev pub count_up : ℕ → ℕ → List ℕ
count_up first zero = []
count_up first (suc n) = first ∷ count_up (first + 1) n

handles-append : (xs ys : List Completion) → handles (xs ++ ys) ≡ handles xs ++ handles ys
handles-append [] ys = refl
handles-append (x ∷ xs) ys = ap (λ hs. x.handle ∷ hs) (handles-append xs ys)

count_up_snoc : (first n : ℕ) → count_up first n ++ ((first + n) ∷ []) ≡ count_up first (n + 1)
count_up_snoc first zero = let same : first + 0 ≡ first = omega arith in ap (λ k. k ∷ []) same
count_up_snoc first (suc n) =
    let shift : first + suc n ≡ first + 1 + n = omega arith in
    let longer : suc n + 1 ≡ suc (n + 1) = omega arith in
    ap (λ k. first ∷ (count_up (first + 1) n ++ (k ∷ []))) shift
    ∙ ap (λ ks. first ∷ ks) (count_up_snoc (first + 1) n)
    ∙ ap (count_up first) (sym longer)

module _ {F : Type 0} (A : Arithmetic F) where
  -- One call by the worker thread.
  pub data Step (s : Traced) : Traced → Type 0 where
    submits :
        (job : FrameJob F)
        → Step s (record s {
          backend = (submit A s.backend job).1;
          issued = s.issued ++ ((submit A s.backend job).0 ∷ []);
        })
    polls : Step s (record s {
      backend = (poll_completions s.backend).1;
      delivered = s.delivered ++ (poll_completions s.backend).0;
    })

  pub data Run (s : Traced) : Traced → Type 0 where
    begun : Run s s
    after : {t u : Traced} → Run s t → Step t u → Run s u

  -- What is issued has been delivered or waits to be, in the order of the submits, and the handles
  -- count up from 1.
  pub record IsAccounted (s : Traced) : Type 0 where
    pub in_order : s.issued ≡ handles s.delivered ++ handles s.backend.completed
    pub counted : s.issued ≡ count_up 1 (length s.issued)
    pub next : s.backend.next_handle ≡ length s.issued + 1

  Step-issued : {s t : Traced} → Step s t → length s.issued ≤ length t.issued
  Step-issued {s} (submits job) =
      omega (arith, length-append s.issued ((submit A s.backend job).0 ∷ []))
  Step-issued polls = omega arith

  run_job-handle : (h : ℕ) (job : FrameJob F) → (run_job A h job).handle ≡ h
  unfolding run_job
  run_job-handle h job = ground arith

  Step-IsAccounted :
      {s t : Traced} → length t.issued < 2 ^ 64 - 1 → IsAccounted s → Step s t → IsAccounted t
  unfolding submit poll_completions
  Step-IsAccounted {s} small a (submits job) =
      let h = s.backend.next_handle in
      let longer : length (s.issued ++ (h ∷ [])) ≡ length s.issued + 1 =
        omega (arith, length-append s.issued (h ∷ [])) in
      let last : handles (run_job A h job ∷ []) ≡ h ∷ [] =
        ap (λ k. k ∷ []) (run_job-handle h job) in
      let number : h ≡ 1 + length s.issued = omega (arith, a.next) in
      record {
        in_order =
            ap (λ l. l ++ (h ∷ [])) a.in_order
            ∙ append_assoc (handles s.delivered) (handles s.backend.completed) (h ∷ [])
            ∙ ap (λ l. handles s.delivered ++ (handles s.backend.completed ++ l)) (sym last)
            ∙ ap (λ l. handles s.delivered ++ l)
                (sym (handles-append s.backend.completed (run_job A h job ∷ [])));
        counted =
            ap (λ l. l ++ (h ∷ [])) a.counted
            ∙ ap (λ k. count_up 1 (length s.issued) ++ (k ∷ [])) number
            ∙ count_up_snoc 1 (length s.issued)
            ∙ ap (count_up 1) (sym longer);
        next = omega (arith, a.next, longer, small);
      }
  Step-IsAccounted {s} small a polls = record {
    in_order =
        a.in_order
        ∙ sym (handles-append s.delivered s.backend.completed)
        ∙ sym (append-nil (handles (s.delivered ++ s.backend.completed)));
    counted = a.counted;
    next = a.next;
  }

  -- Over every run of submits and polls with fewer than 2 ^ 64 - 1 jobs: the handles count up from 1,
  -- so no two jobs share one, and the delivered completions and then the waiting ones carry exactly
  -- these handles in the order of the submits, so every job completes once.
  pub Run-IsAccounted : {s : Traced} → Run start s → length s.issued < 2 ^ 64 - 1 → IsAccounted s
  Run-IsAccounted begun small = record { in_order = refl; counted = refl; next = refl }
  Run-IsAccounted (after {t} r step) small =
      let earlier : length t.issued < 2 ^ 64 - 1 = omega (arith, Step-issued step, small) in
      Step-IsAccounted small (Run-IsAccounted r earlier) step
