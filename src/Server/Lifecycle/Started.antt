-- ===== src/Server/Lifecycle/Started.antt =====
-- When the server starts, what it is then, and what a start leaves of a queue that was closed.
use image_processing_engine.Prelude.{
  ℕ, ◌≡◌, ◌≢◌, Bool, true, false, ◌||◌, [], Option, none, some, arith, length, ◌==◌, if◌then◌else◌,
  refl,
}
use image_processing_engine.SlotPool
use image_processing_engine.SlotPool.{SlotPool}
use image_processing_engine.SlotPool.Invariant.{IsValid}
use image_processing_engine.SlotPool.Release.{init-IsValid}
use image_processing_engine.BoundedQueue
use image_processing_engine.Server.Lifecycle.{
  ServerConfig, Impl, Factory, throws, nothing, makes, World, Start, started, failed, create,
  make_slots, slots_after_failure, is_named, await_worker, open_listener, start,
}

-- What the configuration and the surroundings have to provide.
pub record IsStartable (config : ServerConfig) (world : World) : Type 0 where
  pub some_slots : config.num_slots ≢ 0
  pub some_bytes : config.max_payload_bytes ≢ 0
  pub has_directory : is_named config.output_dir ≡ true → world.directories ≡ true
  pub hears : world.listens ≡ true
  pub backed : (base : ℕ) × (base ≢ 0) × (world.factory ≡ makes (some base))

-- A server that runs: it listens, its queue is open and empty, and all slots that it was configured
-- with are there and free.
pub record IsReady {F : Type 0} (config : ServerConfig) (s : Impl F) : Type 0 where
  pub runs : s.running ≡ true
  pub listens : s.listening ≡ true
  pub takes_frames : s.queue.closed ≡ false
  pub no_frames : s.queue.items ≡ []
  pub pool :
      (slots : SlotPool) × (s.slots ≡ some slots)
      × IsValid slots
      × (length slots.free_list ≡ config.num_slots)

-- A server that did not start: nothing runs or listens, and there are no slots.
pub record IsOff {F : Type 0} (s : Impl F) : Type 0 where
  pub stands : s.running ≡ false
  pub deaf : s.listening ≡ false
  pub no_slots : s.slots ≡ none

abbrev pub Ends : {F : Type 0} → ServerConfig → World → Start F → Type 0
Ends config world (started s) = IsStartable config world × IsReady config s
Ends config world (failed s) = ¬ IsStartable config world × IsOff s

module _ (config : ServerConfig) where
  -- The pool can only fail for want of slots, of bytes, or of an address.
  make_slots-fails :
      (base : ℕ) (factory : Factory)
      → factory ≡ makes (some base)
      → make_slots config factory ≡ none
      → config.num_slots ≢ 0
      → config.max_payload_bytes ≢ 0
      → base ≡ 0
  unfolding make_slots SlotPool.init
  make_slots-fails base throws f e n b = absurd (cc)
  make_slots-fails base nothing f e n b = absurd (cc)
  make_slots-fails base (makes none) f e n b = absurd (cc)
  make_slots-fails base (makes (some address)) f e n b = ground arith

  make_slots-makes :
      (factory : Factory) {slots : SlotPool}
      → make_slots config factory ≡ some slots
      → ((base : ℕ) × (base ≢ 0) × (factory ≡ makes (some base)))
        × IsValid slots
        × (length slots.free_list ≡ config.num_slots)
  unfolding make_slots SlotPool.init
  make_slots-makes throws e = absurd (cc)
  make_slots-makes nothing e = absurd (cc)
  make_slots-makes (makes none) e = absurd (cc)
  make_slots-makes (makes (some base)) e =
      let (valid, free) =
        init-IsValid base config.num_slots config.max_payload_bytes config.slots_per_connection e in
      ((base, (λ zero_base. ground arith), refl), valid, free)

no_slots_after : (factory : Factory) → slots_after_failure factory none ≡ none
unfolding slots_after_failure
no_slots_after throws = refl
no_slots_after nothing = refl
no_slots_after (makes none) = refl
no_slots_after (makes (some base)) = refl

module _ (F : Type 0) (config : ServerConfig) (world : World) where
  failed-Ends :
      (s : Impl F)
      → s.running ≡ false
      → s.listening ≡ false
      → s.slots ≡ none
      → ¬ IsStartable config world
      → Ends config world (failed s)
  failed-Ends s stands deaf no_slots un =
      (un, record { stands = stands; deaf = deaf; no_slots = no_slots })

  await_worker-Ends :
      (made : Option SlotPool)
      → make_slots config world.factory ≡ made
      → config.num_slots ≢ 0
      → config.max_payload_bytes ≢ 0
      → (is_named config.output_dir ≡ true → world.directories ≡ true)
      → world.listens ≡ true
      → Ends config world
          (await_worker (record (create {F = F} config) { listening = true }) world.factory made)
  unfolding await_worker create BoundedQueue.init
  await_worker-Ends none e n b d l =
      failed-Ends _ refl refl (no_slots_after world.factory)
        (λ can. let (base, real, f) = can.backed in real (make_slots-fails config base _ f e n b))
  await_worker-Ends (some slots) e n b d l =
      let (backed, valid, free) = make_slots-makes config world.factory e in
      (
        record { some_slots = n; some_bytes = b; has_directory = d; hears = l; backed = backed },
        record {
          runs = refl;
          listens = refl;
          takes_frames = refl;
          no_frames = refl;
          pool = (slots, refl, valid, free);
        },
      )

  open_listener-Ends :
      (listens : Bool)
      → world.listens ≡ listens
      → config.num_slots ≢ 0
      → config.max_payload_bytes ≢ 0
      → (is_named config.output_dir ≡ true → world.directories ≡ true)
      → Ends config world (
          if listens
          then await_worker
              (record (create {F = F} config) { listening = true })
              world.factory
              (make_slots config world.factory)
          else failed (create config))
  unfolding create
  open_listener-Ends true l n b d = await_worker-Ends _ refl n b d l
  open_listener-Ends false l n b d = failed-Ends _ refl refl refl (λ can. cc)

  directory-Ends :
      (named directories : Bool)
      → is_named config.output_dir ≡ named
      → world.directories ≡ directories
      → config.num_slots ≢ 0
      → config.max_payload_bytes ≢ 0
      → Ends config world (
          if named
          then (if directories
              then open_listener (create {F = F} config) world
              else failed (create config))
          else open_listener (create config) world)
  unfolding open_listener create
  directory-Ends true true i d n b = open_listener-Ends _ refl n b (λ j. d)
  directory-Ends true false i d n b =
      failed-Ends _ refl refl refl (λ can. let made = can.has_directory i in cc)
  directory-Ends false directories i d n b = open_listener-Ends _ refl n b (λ j. absurd (cc))

  size-Ends :
      (no_slots no_bytes : Bool)
      → (config.num_slots == 0) ≡ no_slots
      → (config.max_payload_bytes == 0) ≡ no_bytes
      → Ends config world (
          if no_slots || no_bytes
          then failed (create {F = F} config)
          else if is_named config.output_dir
          then (if world.directories
              then open_listener (create config) world
              else failed (create config))
          else open_listener (create config) world)
  unfolding create
  size-Ends true no_bytes n b =
      failed-Ends _ refl refl refl (λ can. let some_slots = can.some_slots in ground arith)
  size-Ends false true n b =
      failed-Ends _ refl refl refl (λ can. let some_bytes = can.some_bytes in ground arith)
  size-Ends false false n b = directory-Ends _ _ refl refl (λ z. ground arith) (λ z. ground arith)

  -- A server that was just made starts exactly if it is configured with slots of some bytes, the
  -- output directory can be made where one is named, the port can be listened on, and the factory
  -- makes a backend whose slots have an address. Then it runs and listens, its queue is open and
  -- empty, and its pool is valid with every slot free. Otherwise `start` throws, and nothing runs
  -- or listens and there is no pool.
  pub start-Ends : Ends config world (start (create {F = F} config) world)
  unfolding start create
  start-Ends = size-Ends _ _ refl refl
