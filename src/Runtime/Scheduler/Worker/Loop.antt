-- ===== src/Runtime/Scheduler/Worker/Loop.antt =====
-- scheduler.rs: `worker_loop`, with the environment that it meets as an explicit list of rounds.
use qwen3_tts_native.Base.{
  ℕ, zero, suc, ◌-◌, Bool, true, not, ◌&&◌, ◌||◌, List, [], ◌∷◌, ◌++◌, length, is_empty, Option,
  none, some, ltb, if◌then◌else◌,
}
use qwen3_tts_native.Runtime.Types.{EngineConfig}
use qwen3_tts_native.Runtime.Request.{FloatOps}
use qwen3_tts_native.Runtime.Scheduler.Shared.{
  BackendError, RequestShared, mark_failed, mark_cancelled,
}
use qwen3_tts_native.Runtime.Scheduler.Slots.{SlotPool, try_acquire}
use qwen3_tts_native.Runtime.Scheduler.Backend.{Backend}
use qwen3_tts_native.Runtime.Scheduler.Worker.{
  Store, Worker, PendingStart, ActiveRequest, Command, start, on_shared, retire, cancel_session,
  handle_command, remove_cancelled, remove_finished,
}
use qwen3_tts_native.Runtime.Scheduler.Worker.Start.{start_pending}
use qwen3_tts_native.Runtime.Scheduler.Worker.Step.{step_eligible, eligible_from}

-- The worker with the commands that it has not received, and `command_shutdown`.
pub record Loop (B : Backend) : Type 0 where
  pub worker : Worker B
  pub channel : List Command
  pub stop : Bool

-- What the clients' threads do before the worker's next receive: they work on their requests by
-- their handles, and one of them sends a command. (`Scheduler::start` also makes an entry.)
pub record Arrival : Type 0 where
  pub clients : Store → Store
  pub command : Command

-- What one round of the loop meets: the `shutdown` flag at its two reads, the commands that arrive
-- before each of its receives, whether all senders are gone once the channel is empty, how many
-- receives the start window leaves time for, the clock, and what the handles of the clients do to
-- their requests between the calls.
pub record Tick : Type 0 where
  pub shutdown_before : Bool
  pub shutdown_after : Bool
  pub idle_arrivals : List Arrival
  pub drain_arrivals : List Arrival
  pub window_arrivals : List Arrival
  pub wait_arrivals : List Arrival
  pub disconnected : Bool
  pub window_receives : ℕ
  pub start_now : ℕ
  pub step_began : ℕ
  pub step_now : ℕ
  pub clients : ℕ → Store → Store

-- The end of `worker_loop`: every request that the worker still has is failed, if the loop
-- panicked, or else cancelled, and retired.
abbrev pub end_request : Option BackendError → RequestShared → RequestShared
end_request none s = mark_cancelled s
end_request (some e) s = mark_failed s e

module _ {B : Backend} where
  abbrev send : Command → Loop B → Loop B
  send c l = record l { channel = l.channel ++ c ∷ [] }

  -- A start takes a permit before it is sent, and is not sent if there is none.
  unfoldable pub admit_start : PendingStart → Loop B → Option SlotPool → Loop B
  admit_start p l none = l
  admit_start p l (some slots) =
      send (start p) (record l { worker = record (l.worker) { slots = slots } })

  unfoldable pub arrive_one : Command → Loop B → Loop B
  unfolding admit_start try_acquire
  arrive_one (start p) l = admit_start p l (try_acquire l.worker.slots)
  arrive_one c l = send c l

  unfoldable pub arrive : List Arrival → Loop B → Loop B
  unfolding arrive_one
  arrive [] l = l
  arrive (a ∷ rest) l = arrive rest (
      arrive_one a.command
        (record l { worker = record (l.worker) { store = a.clients l.worker.store } }))

  abbrev clients_act : (Store → Store) → Loop B → Loop B
  clients_act f l = record l { worker = record (l.worker) { store = f l.worker.store } }

  abbrev on_worker : (Worker B → Worker B) → Loop B → Loop B
  on_worker f l = record l { worker = f l.worker }

  -- One receive from the channel `cs`: an empty channel is a timeout, or the end of all senders.
  unfoldable pub receive_from : Bool → Loop B → List Command → Loop B
  unfolding handle_command
  receive_from disconnected l [] = record l { stop = l.stop || disconnected }
  receive_from disconnected l (c ∷ cs) =
      let (stop, w) = handle_command c l.worker in record { worker = w; channel = cs; stop = stop }

  -- `receiver.recv()` or `recv_timeout`, with `command_shutdown = handle_command(..)`.
  unfoldable pub receive : Bool → Loop B → Loop B
  unfolding receive_from
  receive disconnected l = receive_from disconnected l l.channel

  unfoldable pub drain : Bool → List Command → Worker B → Loop B
  unfolding handle_command
  drain disconnected [] w = record { worker = w; channel = []; stop = disconnected }
  drain disconnected (c ∷ cs) w =
      let (stop, w') = handle_command c w in
      let rest = drain disconnected cs w' in
      if stop then record { worker = w'; channel = cs; stop = true } else rest

  -- `drain_commands`, which sets the flag and never clears it.
  unfoldable pub drain_commands : Bool → Loop B → Loop B
  unfolding drain
  drain_commands disconnected l =
      let l' = drain disconnected l.channel l.worker in record l' { stop = l.stop || l'.stop }

  unfoldable pub coalesce : ℕ → Bool → ℕ → List Command → Worker B → Bool → Loop B
  unfolding handle_command
  coalesce available disconnected zero cs w stop = record { worker = w; channel = cs; stop = stop }
  coalesce available disconnected (suc n) [] w stop = record {
    worker = w;
    channel = [];
    stop = stop || (not (is_empty w.pending) && ltb (length w.pending) available && disconnected);
  }
  coalesce available disconnected (suc n) (c ∷ cs) w stop =
      let (stop', w') = handle_command c w in
      let rest = coalesce available disconnected n cs w' stop in
      if not (is_empty w.pending) && ltb (length w.pending) available
      then (if stop' then record { worker = w'; channel = cs; stop = true } else rest)
      else record { worker = w; channel = c ∷ cs; stop = stop }

  -- `coalesce_pending_starts`: more starts are received while there is room in the batch.
  unfoldable pub coalesce_pending_starts : ℕ → Bool → ℕ → Loop B → Loop B
  unfolding coalesce
  coalesce_pending_starts maximum_active disconnected receives l =
      coalesce (maximum_active - length l.worker.active) disconnected receives l.channel l.worker
        l.stop

  -- The first part of a round: commands.
  unfoldable pub take_commands : EngineConfig → Tick → Loop B → Loop B
  unfolding arrive receive drain_commands coalesce_pending_starts
  take_commands config t l =
      let woken =
        if is_empty l.worker.active && is_empty l.worker.pending
        then receive true (arrive t.idle_arrivals l)
        else l in
      coalesce_pending_starts config.max_concurrent_requests t.disconnected t.window_receives
        (arrive t.window_arrivals (drain_commands t.disconnected (arrive t.drain_arrivals woken)))

  unfoldable pub generate_for : FloatOps → EngineConfig → Tick → List ℕ → Loop B → Loop B
  unfolding arrive receive step_eligible remove_finished
  generate_for fl config t [] l = receive t.disconnected (arrive t.wait_arrivals l)
  generate_for fl config t (i ∷ indices) l = on_worker remove_finished (
      clients_act (t.clients 3) (
        on_worker (step_eligible fl config.packet_frames t.step_began t.step_now (i ∷ indices))
          (clients_act (t.clients 2) l)))

  -- The second part: starts, cancellations and one batch of generation.
  unfoldable pub generate : FloatOps → EngineConfig → Tick → Loop B → Loop B
  unfolding generate_for start_pending remove_cancelled eligible_from
  generate fl config t l =
      let started = on_worker (start_pending t.start_now) (clients_act (t.clients 0) l) in
      let ready = on_worker remove_cancelled (clients_act (t.clients 1) started) in
      generate_for fl config t (eligible_from 0 ready.worker.active ready.worker) ready

  -- One round of `worker_loop_inner`; `break` is a round that ends with `stop`.
  unfoldable pub round : FloatOps → EngineConfig → Tick → Loop B → Loop B
  unfolding take_commands generate
  round fl config t l =
      let l' = take_commands config t l in
      if t.shutdown_after || l'.stop then record l' { stop = true } else generate fl config t l'

  -- `worker_loop_inner` over the rounds that the environment grants.
  unfoldable pub worker_loop_inner : FloatOps → EngineConfig → List Tick → Loop B → Loop B
  unfolding round
  worker_loop_inner fl config [] l = l
  worker_loop_inner fl config (t ∷ ts) l =
      let rest = worker_loop_inner fl config ts (round fl config t l) in
      if t.shutdown_before || l.stop then l else rest

  unfoldable pub end_pending : Option BackendError → PendingStart → Worker B → Worker B
  unfolding on_shared retire mark_cancelled mark_failed
  end_pending failure p w =
      let id = p.request.id in retire (on_shared w id (end_request failure)) id

  unfoldable pub end_all_active :
      Option BackendError → List (ActiveRequest B.Session) → Worker B → Worker B
  unfolding cancel_session on_shared retire mark_cancelled mark_failed
  end_all_active failure [] w = w
  end_all_active failure (a ∷ rest) w =
      let id = a.record_of.id in
      end_all_active failure rest
        (retire (on_shared (cancel_session w a.session) id (end_request failure)) id)

  unfoldable pub end_all_pending : Option BackendError → List PendingStart → Worker B → Worker B
  unfolding end_pending
  end_all_pending failure [] w = w
  end_all_pending failure (p ∷ ps) w = end_all_pending failure ps (end_pending failure p w)

  unfoldable pub end_commands : Option BackendError → List Command → Worker B → Worker B
  unfolding end_pending
  end_commands failure [] w = w
  end_commands failure (start p ∷ cs) w = end_commands failure cs (end_pending failure p w)
  end_commands failure (c ∷ cs) w = end_commands failure cs w

  unfoldable pub shut_down : Option BackendError → Loop B → Worker B
  unfolding end_all_active end_all_pending end_commands
  shut_down failure l =
      let w = record (l.worker) { active = []; pending = [] } in
      let w' = end_all_active failure l.worker.active w in
      end_commands failure l.channel (end_all_pending failure l.worker.pending w')
