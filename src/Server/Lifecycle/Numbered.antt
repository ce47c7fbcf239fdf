-- ===== src/Server/Lifecycle/Numbered.antt =====
-- The numbers that the acceptor gives to connections, whatever starts, rounds, ends of connections
-- and stops follow each other.
use image_processing_engine.Prelude.{
  ℕ, suc, ◌+◌, ◌%◌, ◌^◌, ◌||◌, ◌≤◌, ◌<◌, ◌≡◌, refl, Bool, true, false, List, [], ◌∷◌, ◌++◌, Option,
  none, some, arith, ◌==◌, if◌then◌else◌, if-cases, inl, inr,
}
use image_processing_engine.SlotPool.{SlotPool, no_owner}
use image_processing_engine.BoundedQueue
use image_processing_engine.Server.Lifecycle.{
  ServerConfig, ConnectionRecord, Impl, Factory, World, Start, started, failed, create,
  await_worker, open_listener, start, reap_finished, accept_round, finish_connection, begin_stop,
  end_stop, all_finished, is_named,
}

-- The server as a start leaves it.
abbrev pub state_of : {F : Type 0} → Start F → Impl F
state_of (started s) = s
state_of (failed s) = s

-- The ids grow along the list, from `low` on and below `next`.
pub data Ascends (next : ℕ) : ℕ → List ConnectionRecord → Type 0 where
  ends : {low : ℕ} → low ≤ next → Ascends next low []
  above :
      {low : ℕ} {connection : ConnectionRecord} {rest : List ConnectionRecord}
      → low ≤ connection.id
      → Ascends next (suc connection.id) rest
      → Ascends next low (connection ∷ rest)

module _ {F : Type 0} where
  -- The threads' steps: the acceptor's, the ends of connections', and those of the caller of `start`
  -- and `stop`. A number is given below the one that means no owner.
  pub data Step (s : Impl F) : Impl F → Type 0 where
    accepts : s.next_connection_id < no_owner → Step s (accept_round s true)
    idles : Step s (accept_round s false)
    finishes : (id : ℕ) → Step s (record s { connections = finish_connection id s.connections })
    starts : (world : World) → Step s (state_of (start s world))
    stops : Step s (begin_stop s)
    joins : {t : Impl F} → end_stop s ≡ some t → Step s t

  pub data Reach (s : Impl F) : Impl F → Type 0 where
    here : Reach s s
    onward : {t u : Impl F} → Reach s t → Step t u → Reach s u

  pub record IsNumbered (s : Impl F) : Type 0 where
    pub ascending : Ascends s.next_connection_id 1 s.connections
    pub bounded : s.next_connection_id ≤ no_owner
    pub counted : s.connections_accepted + 1 ≡ s.next_connection_id

module _ {next : ℕ} where
  Ascends-from :
      {low high : ℕ} {connections : List ConnectionRecord}
      → low ≤ high
      → Ascends next high connections
      → Ascends next low connections
  Ascends-from le (ends bound) = ends (omega arith)
  Ascends-from le (above bound a) = above (omega arith) a

  reap-Ascends-if :
      (finished : Bool) {low : ℕ} (connection : ConnectionRecord) {rest : List ConnectionRecord}
      → low ≤ connection.id
      → Ascends next (suc connection.id) rest
      → Ascends next low (if finished then rest else connection ∷ rest)
  reap-Ascends-if true connection bound a = Ascends-from (omega arith) a
  reap-Ascends-if false connection bound a = above bound a

  reap-Ascends :
      {low : ℕ} {connections : List ConnectionRecord}
      → Ascends next low connections
      → Ascends next low (reap_finished connections)
  unfolding reap_finished
  reap-Ascends (ends bound) = ends bound
  reap-Ascends (above {connection = connection} bound a) =
      reap-Ascends-if connection.finished connection bound (reap-Ascends a)

  finish-Ascends-if :
      (named : Bool) {low : ℕ} (connection : ConnectionRecord) {rest : List ConnectionRecord}
      → low ≤ connection.id
      → Ascends next (suc connection.id) rest
      → Ascends next low
          ((if named then record connection { finished = true } else connection) ∷ rest)
  finish-Ascends-if true connection bound a = above bound a
  finish-Ascends-if false connection bound a = above bound a

  finish-Ascends :
      (id : ℕ) {low : ℕ} {connections : List ConnectionRecord}
      → Ascends next low connections
      → Ascends next low (finish_connection id connections)
  unfolding finish_connection
  finish-Ascends id (ends bound) = ends bound
  finish-Ascends id (above {connection = connection} bound a) =
      finish-Ascends-if (connection.id == id) connection bound (finish-Ascends id a)

  append-Ascends :
      {low : ℕ} {connections : List ConnectionRecord}
      → Ascends next low connections
      → Ascends (suc next) low (connections ++ (record { id = next; finished = false } ∷ []))
  append-Ascends (ends bound) = above bound (ends (omega arith))
  append-Ascends (above bound a) = above bound (append-Ascends a)

module _ {F : Type 0} where
  record Leaves (end : Start F) : Type 0 where
    server : IsNumbered (state_of end)

  -- The numbering of a server that it shares with `s`, whatever else became of it.
  same-IsNumbered :
      (s t : Impl F)
      → t.connections ≡ s.connections
      → t.next_connection_id ≡ s.next_connection_id
      → t.connections_accepted ≡ s.connections_accepted
      → IsNumbered s
      → IsNumbered t
  same-IsNumbered s t c n a numbered = record {
    ascending = rw (c, n) numbered.ascending;
    bounded = rw n numbered.bounded;
    counted = rw (n, a) numbered.counted;
  }

  await_worker-IsNumbered :
      (s : Impl F) (factory : Factory) (made : Option SlotPool)
      → IsNumbered s
      → Leaves (await_worker s factory made)
  unfolding await_worker
  await_worker-IsNumbered s factory none numbered = record {
    server = same-IsNumbered s _ refl refl refl numbered;
  }
  await_worker-IsNumbered s factory (some slots) numbered = record {
    server = same-IsNumbered s _ refl refl refl numbered;
  }

  if-IsNumbered :
      (test : Bool) {x y : Start F} → Leaves x → Leaves y → Leaves (if test then x else y)
  if-IsNumbered true a b = a
  if-IsNumbered false a b = b

  open_listener-IsNumbered :
      (s : Impl F) (world : World) → IsNumbered s → Leaves (open_listener s world)
  unfolding open_listener
  open_listener-IsNumbered s world numbered =
      let listened = same-IsNumbered s (record s { listening = true }) refl refl refl numbered in
      let same : Leaves (failed s) = record { server = numbered } in
      if-IsNumbered world.listens (await_worker-IsNumbered _ _ _ listened) same

  start-IsNumbered : (s : Impl F) (world : World) → IsNumbered s → Leaves (start s world)
  unfolding start
  start-IsNumbered s world numbered =
      let same : Leaves (failed s) = record { server = numbered } in
      let opened = open_listener-IsNumbered s world numbered in
      if-IsNumbered (s.running || s.config.num_slots == 0 || s.config.max_payload_bytes == 0) same (
        if-IsNumbered (is_named s.config.output_dir) (if-IsNumbered world.directories opened same)
          opened)

  accept_round-IsNumbered :
      (s : Impl F)
      → s.next_connection_id < no_owner
      → IsNumbered s
      → IsNumbered (accept_round s true)
  unfolding accept_round
  accept_round-IsNumbered s room numbered =
      let next : (s.next_connection_id + 1) % 2 ^ 64 ≡ suc s.next_connection_id = omega arith in
      record {
        ascending = rw next (append-Ascends (reap-Ascends numbered.ascending));
        bounded = rw next (omega arith);
        counted = let counted = numbered.counted in omega arith;
      }

  begin_stop-IsNumbered :
      (test : Bool) {s t : Impl F}
      → IsNumbered s
      → IsNumbered t
      → IsNumbered (if test then t else s)
  begin_stop-IsNumbered true numbered stopped = stopped
  begin_stop-IsNumbered false numbered stopped = numbered

  end_stop-IsNumbered : (s t : Impl F) → end_stop s ≡ some t → IsNumbered s → IsNumbered t
  unfolding end_stop
  end_stop-IsNumbered s t e numbered = elim (if-cases (all_finished s.connections) e) [
    | inl (finished, joined) ↦
        let none_left : IsNumbered
            (record s { connections = []; queue = BoundedQueue.close s.queue }) =
          record {
            ascending = ends (let counted = numbered.counted in omega arith);
            bounded = numbered.bounded;
            counted = numbered.counted;
          } in
        let same : t ≡ record s { connections = []; queue = BoundedQueue.close s.queue } = cc in
        rw same none_left
    | inr (busy, joined) ↦ absurd (cc)
  ]

  Step-IsNumbered : {s t : Impl F} → Step s t → IsNumbered s → IsNumbered t
  unfolding begin_stop end_stop accept_round
  Step-IsNumbered {s = s} (accepts room) numbered = accept_round-IsNumbered s room numbered
  Step-IsNumbered idles numbered = record {
    ascending = reap-Ascends numbered.ascending;
    bounded = numbered.bounded;
    counted = numbered.counted;
  }
  Step-IsNumbered (finishes id) numbered = record {
    ascending = finish-Ascends id numbered.ascending;
    bounded = numbered.bounded;
    counted = numbered.counted;
  }
  Step-IsNumbered {s = s} (starts world) numbered = (start-IsNumbered s world numbered).server
  Step-IsNumbered {s = s} stops numbered =
      begin_stop-IsNumbered s.running numbered (same-IsNumbered s _ refl refl refl numbered)
  Step-IsNumbered {s = s} {t = t} (joins e) numbered = end_stop-IsNumbered s t e numbered

  -- From a server that was just made, over any starts, rounds of the acceptor, ends of connections
  -- and stops, in which no connection is given the number that means no owner: the ids of the
  -- connections in the list grow strictly from 1 on and are below the next id, which is at most the
  -- number that means no owner, and one id was given for each connection that was counted.
  pub Reach-IsNumbered :
      (config : ServerConfig) {t : Impl F} → Reach (create config) t → IsNumbered t
  unfolding create
  Reach-IsNumbered config here = record {
    ascending = ends (omega arith);
    bounded = omega arith;
    counted = refl;
  }
  Reach-IsNumbered config (onward earlier step) =
      Step-IsNumbered step (Reach-IsNumbered config earlier)
