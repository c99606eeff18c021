-- ===== src/Bridge/Process.antt =====
-- The process of the bridge: the server socket, the signals and the end (`start_unix_server`, `run`,
-- `shutdown`). A call that leaves the script by `sys.exit` returns its exit code.
pub mod Stop
pub mod Signals
pub mod Ending
use somethingremotelygood.Base.{
  ℕ, zero, suc, Bool, true, false, Option, none, some, Exec, stuck, ok, if◌then◌else◌,
}
use somethingremotelygood.Base.Effects.{pure, modify, gets, on_exception, ◌>>=◌, ◌>>◌}
use somethingremotelygood.Port.{Port}
use somethingremotelygood.Bridge.Object.{Serial, Bridge, connect_serial, on_device}

-- What the script uses of `os`, `socket`, `threading` and `signal`. There is one server socket, and
-- one path, that of the socket.
pub record Unix (p : Port) : Type 1 where
  pub World : Type 0
  pub Client : Type 0
  pub path_exists : World → Bool
  pub unlink : Exec World (Unit {0})
  pub make_server : Exec World (Unit {0})
  pub reuse_address : Exec World (Unit {0})
  pub bind : Exec World (Unit {0})
  pub listen : ℕ → Exec World (Unit {0})
  pub set_timeout : ℕ → Exec World (Unit {0})
  pub chmod : ℕ → Exec World (Unit {0})
  pub accept : Exec World Client
  pub set_client_timeout : Client → ℕ → Exec World (Unit {0})
  -- a thread that runs `handle_client`
  pub start_thread : Client → Exec World (Unit {0})
  pub close_server : Exec World (Unit {0})
  pub handle_signals : Exec World (Unit {0})
  -- whether SIGINT or SIGTERM comes while the script waits in `accept`
  pub signalled : World → Bool
  -- what the threads of the clients do to the device meanwhile
  pub meanwhile : World → p.Device → p.Device

pub record Server (p : Port) (u : Unix p) : Type 0 where
  pub bridge : Bridge p
  pub world : u.World

-- `__init__`
abbrev pub new_bridge : {p : Port} → p.Device → Bridge p
new_bridge device = record { serial = none; device = device; running = true }

-- `if self.serial: self.serial.close()`
abbrev close_port : {p : Port} → Option Serial → Exec (Bridge p) (Unit {0})
close_port none = pure tt
close_port {p} (some serial) = on_device p.close

unfoldable pub close_serial : {p : Port} → Exec (Bridge p) (Unit {0})
close_serial b = close_port b.serial b

module _ {p : Port} {u : Unix p} where
  abbrev pub on_bridge : {A : Type 0} → Exec (Bridge p) A → Exec (Server p u) A
  on_bridge m s = let (r, b) = m s.bridge in (r, record s { bridge = b })

  abbrev pub on_world : {A : Type 0} → Exec u.World A → Exec (Server p u) A
  on_world m s = let (r, w) = m s.world in (r, record s { world = w })

  -- `if os.path.exists(self.socket_path): os.unlink(self.socket_path)`
  unfoldable pub remove_socket : Exec (Server p u) (Unit {0})
  remove_socket s = (if u.path_exists s.world then on_world u.unlink else pure tt) s

  unfoldable pub shutdown : Exec (Server p u) ℕ
  unfolding close_serial remove_socket
  shutdown = do
    modify (λ s. record s { bridge = record s.bridge { running = false } })
    on_bridge close_serial
    remove_socket
    pure 0

  -- the threads of the clients go on while the script waits
  abbrev pub wait : Server p u → Server p u
  wait s = record s { bridge = record s.bridge { device = u.meanwhile s.world s.bridge.device } }

  unfoldable pub accept_thread : Exec (Server p u) (Option ℕ)
  accept_thread = do
    client ← on_world u.accept
    on_world (u.set_client_timeout client 30000)
    on_world (u.start_thread client)
    pure none

  -- the body of the `try`, in which the handler of a signal runs
  unfoldable pub accept_client : Exec (Server p u) (Option ℕ)
  unfolding shutdown accept_thread
  accept_client = do
    modify wait
    signal ← gets (λ s. u.signalled s.world)
    if signal then (do code ← shutdown; pure (some code)) else accept_thread

  -- `except socket.timeout` and `except Exception` both go on; `SystemExit` is neither
  unfoldable pub accept_round : Exec (Server p u) (Option ℕ)
  unfolding accept_client
  accept_round = on_exception accept_client (pure none)

  -- a round, and what the others do
  unfoldable pub after_round : Exec (Server p u) (Option ℕ) → Exec (Server p u) (Option ℕ)
  unfolding accept_round
  after_round rest = do
    left ← accept_round
    elim left [ some code ↦ pure (some code) | none ↦ rest ]

  -- `while self.running`, for at most `rounds` rounds
  unfoldable pub accept_loop : ℕ → Exec (Server p u) (Option ℕ)
  unfolding after_round
  accept_loop zero s = (stuck, s)
  accept_loop (suc rounds) s = elim s.bridge.running [
    | false ↦ (ok none, s)
    | true ↦ after_round (accept_loop rounds) s
  ]

  -- before the loop, and after it
  unfoldable pub open_server : Exec (Server p u) (Unit {0})
  unfolding remove_socket
  open_server = do
    remove_socket
    on_world u.make_server
    on_world u.reuse_address
    on_world u.bind
    on_world (u.listen 5)
    on_world (u.set_timeout 1000)
    on_world (u.chmod 384)

  unfoldable pub leave_server : Option ℕ → Exec (Server p u) (Option ℕ)
  unfolding remove_socket
  leave_server (some code) = pure (some code)
  leave_server none = do on_world u.close_server; remove_socket; pure none

  unfoldable pub start_unix_server : ℕ → Exec (Server p u) (Option ℕ)
  unfolding open_server accept_loop leave_server
  start_unix_server rounds = do open_server; left ← accept_loop rounds; leave_server left

  unfoldable pub run_bridge : ℕ → Exec (Server p u) (Option ℕ)
  unfolding start_unix_server
  run_bridge rounds = do
    connected ← on_bridge connect_serial
    if connected then (do on_world u.handle_signals; start_unix_server rounds) else pure (some 1)
