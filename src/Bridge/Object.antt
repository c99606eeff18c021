-- ===== src/Bridge/Object.antt =====
-- The object `ESP32AgentBridge` and its access to the serial port.
use somethingremotelygood.Base.{
  ℕ, Bool, true, false, Option, none, some, Bytes, attribute_error, Exec,
}
use somethingremotelygood.Base.Effects.{pure, raise, modify, on_exception, ◌>>◌}
use somethingremotelygood.Port.{Port}

-- A `serial.Serial`; its other settings are fixed when it is opened.
pub record Serial : Type 0 where
  pub timeout : Option ℕ

-- `serial_port`, `socket_path` and `baudrate` never change and are left to the port.
pub record Bridge (p : Port) : Type 0 where
  pub serial : Option Serial
  pub device : p.Device
  pub running : Bool

module _ {p : Port} where
  abbrev pub now : Bridge p → ℕ
  now s = p.now s.device

  -- A call of the port.
  abbrev pub on_device : {A : Type 0} → Exec p.Device A → Exec (Bridge p) A
  on_device m s = let (r, d) = m s.device in (r, record s { device = d })

  -- `self.serial.read(n)`
  abbrev read_through : Option Serial → ℕ → Exec (Bridge p) Bytes
  read_through none n = raise attribute_error
  read_through (some ser) n = on_device (p.read ser.timeout n)

  unfoldable pub serial_read : ℕ → Exec (Bridge p) Bytes
  serial_read n s = read_through s.serial n s

  -- `self.serial.timeout = t`
  abbrev assign : Option Serial → Option ℕ → Exec (Bridge p) (Unit {0})
  assign none t = raise attribute_error
  assign (some ser) t = modify (λ s. record s { serial = some (record { timeout = t }) })

  unfoldable pub set_timeout : Option ℕ → Exec (Bridge p) (Unit {0})
  set_timeout t s = assign s.serial t s

  -- `connect_serial`
  unfoldable pub connect_serial : Exec (Bridge p) Bool
  connect_serial =
      on_exception
        (do
          on_device p.connect
          modify (λ s. record s { serial = some (record { timeout = some 5000 }) })
          modify (λ s. record s { device = p.sleep 2000 s.device })
          on_device p.reset_input_buffer
          pure true)
        (pure false)
