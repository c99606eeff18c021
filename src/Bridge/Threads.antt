-- ===== src/Bridge/Threads.antt =====
-- The client threads of the bridge under `serial_lock`, in steps: a thread takes the lock, sends its
-- packet, and receives the reply. A schedule says which thread goes on next.
pub mod Serve
pub mod Invariant
pub mod Order
pub mod Finish
use somethingremotelygood.Base.{
  ℕ, Bool, true, false, Option, none, some, List, [], ◌∷◌, ◌++◌, Bytes, Result, ok, raised, stuck,
  Exec, ◌==◌, if◌then◌else◌,
}
use somethingremotelygood.Base.Results.{◌>>=◌}
use somethingremotelygood.Port.{Port}
use somethingremotelygood.Wire.{to_bytes}
use somethingremotelygood.Bridge.Object.{Bridge}
use somethingremotelygood.Bridge.Blobs.{
  ssh_agentc_request_identities, ssh_agentc_sign_request, protocol_unlock, protocol_lock,
  create_failure, ssh_string, extract_raw_key,
}
use somethingremotelygood.Bridge.Link.{send_to_esp32, recv_from_esp32}
use somethingremotelygood.Bridge.Replies.{status_reply, identities_reply, signature_reply}

-- The four calls that use the device.
pub data Request : Type 0 where
  unlock_call : Bytes → Request
  lock_call : Request
  identities_call : Request
  sign_call : Bytes → Bytes → ℕ → Request

-- The type and the data of the packet; that of `sign_request` is built before the lock is taken.
unfoldable pub message_of : Request → Result (ℕ × Bytes)
message_of (unlock_call password) = ok (protocol_unlock, password)
message_of lock_call = ok (protocol_lock, [])
message_of identities_call = ok (ssh_agentc_request_identities, [])
message_of (sign_call key_blob sign_data flags) = do
  raw_key ← extract_raw_key key_blob
  key ← ssh_string raw_key
  message ← ssh_string sign_data
  tail ← to_bytes (flags ∷ [])
  ok (ssh_agentc_sign_request, key ++ message ++ tail)

abbrev pub wait_of : Request → ℕ
wait_of (unlock_call password) = 30000
wait_of lock_call = 10000
wait_of identities_call = 10000
wait_of (sign_call key_blob sign_data flags) = 30000

-- What the packet that was received is made into.
abbrev pub answer_of : Request → Option (ℕ × Bytes) → Result Bytes
answer_of (unlock_call password) result = ok (status_reply result)
answer_of lock_call result = ok (status_reply result)
answer_of identities_call result = identities_reply result
answer_of (sign_call key_blob sign_data flags) result = signature_reply result

pub data Stage : Type 0 where
  idle : Stage
  -- before `with self.serial_lock`, and inside of it
  asking : Request → ℕ × Bytes → Stage
  sending : Request → ℕ × Bytes → Stage
  receiving : Request → Stage
  -- in a call that does not return, inside of `with self.serial_lock`
  hanging : Stage
  done : Result Bytes → Stage

-- `holder` is the thread that has `serial_lock`.
pub record System (p : Port) : Type 0 where
  pub bridge : Bridge p
  pub holder : Option ℕ
  pub stage : ℕ → Stage

abbrev pub put : ℕ → Stage → (ℕ → Stage) → ℕ → Stage
put i st stages = λ j. if j == i then st else stages j

-- a call of the thread begins
abbrev pub begin : Request → Result (ℕ × Bytes) → Stage
begin r (ok message) = asking r message
begin r (raised e) = done (raised e)
begin r stuck = done stuck

-- What happens next: a client's message reaches its thread, or a thread goes on.
pub data Event : Type 0 where
  submit : ℕ → Request → Event
  advance : ℕ → Event

module _ {p : Port} where
  unfoldable pub submit_at : ℕ → Request → Stage → System p → System p
  unfolding message_of
  submit_at i r idle s = record s { stage = put i (begin r (message_of r)) s.stage }
  submit_at i r (done x) s = record s { stage = put i (begin r (message_of r)) s.stage }
  submit_at i r _ s = s

  -- `with` releases the lock also when the call raises, but not when it does not return
  abbrev pub after_send : ℕ → Request → (ℕ → Stage) → Result Bool × Bridge p → System p
  after_send i r f (ok true, b) = record {
    bridge = b;
    holder = some i;
    stage = put i (receiving r) f;
  }
  after_send i r f (ok false, b) = record {
    bridge = b;
    holder = none;
    stage = put i (done (ok create_failure)) f;
  }
  after_send i r f (raised e, b) = record {
    bridge = b;
    holder = none;
    stage = put i (done (raised e)) f;
  }
  after_send i r f (stuck, b) = record { bridge = b; holder = some i; stage = put i hanging f }

  abbrev pub after_receive :
      ℕ → Request → (ℕ → Stage) → Result (Option (ℕ × Bytes)) × Bridge p → System p
  after_receive i r f (ok result, b) = record {
    bridge = b;
    holder = none;
    stage = put i (done (answer_of r result)) f;
  }
  after_receive i r f (raised e, b) = record {
    bridge = b;
    holder = none;
    stage = put i (done (raised e)) f;
  }
  after_receive i r f (stuck, b) = record { bridge = b; holder = some i; stage = put i hanging f }

  -- a thread waits while another has the lock
  abbrev pub take_lock : ℕ → Request → ℕ × Bytes → Option ℕ → System p → System p
  take_lock i r message none s = record s {
    holder = some i;
    stage = put i (sending r message) s.stage;
  }
  take_lock i r message (some j) s = s

  unfoldable pub advance_at : ℕ → Stage → System p → System p
  advance_at i idle s = s
  advance_at i (asking r message) s = take_lock i r message s.holder s
  advance_at i (sending r message) s =
      after_send i r s.stage (send_to_esp32 message.0 message.1 s.bridge)
  advance_at i (receiving r) s = after_receive i r s.stage (recv_from_esp32 (wait_of r) s.bridge)
  advance_at i hanging s = s
  advance_at i (done x) s = s

  unfoldable pub step : Event → System p → System p
  unfolding submit_at advance_at
  step (submit i r) s = submit_at i r (s.stage i) s
  step (advance i) s = advance_at i (s.stage i) s

  unfoldable pub run_threads : List Event → System p → System p
  unfolding step
  run_threads [] s = s
  run_threads (e ∷ es) s = run_threads es (step e s)

  abbrev pub start : Bridge p → System p
  start b = record { bridge = b; holder = none; stage = λ i. idle }
