-- ===== src/Keytool/Main.antt =====
-- `main` of the tool: which command runs, and the exit code.
pub mod Exits
use somethingremotelygood.Base.{
  ℕ, Bool, true, false, ◌||◌, not, Option, none, some, Bytes, Exec, if◌then◌else◌,
}
use somethingremotelygood.Base.Effects.{pure, ◌>>=◌}
use somethingremotelygood.Port.{Port}
use somethingremotelygood.Keytool.Commands.{
  Codecs, given, text_of, generate_key, get_public_key, unlock_agent, lock_agent, sign_challenge,
}

-- The parsed arguments; port and baud rate are the port's.
pub record Arguments : Type 0 where
  pub generate : Bool
  pub get_key : Bool
  pub sign : Option Bytes
  pub password : Option Bytes
  pub unlock : Bool
  pub lock : Bool

-- `sys.exit(0)` or `sys.exit(1)`
abbrev pub exit_code : Bool → ℕ
exit_code true = 0
exit_code false = 1

abbrev pub is_some : {A : Type 0} → Option A → Bool
is_some none = false
is_some (some a) = true

module _ (p : Port) (codecs : Codecs) where
  unfoldable pub run_main : Arguments → Exec p.Device ℕ
  run_main args =
      if args.generate
      then (do done ← generate_key p codecs args.password; pure (exit_code done))
      else if args.unlock
      then (if not (given args.password)
          then pure 1
          else (do done ← unlock_agent p codecs (text_of args.password); pure (exit_code done)))
      else if args.lock
      then (do done ← lock_agent p; pure (exit_code done))
      else if args.get_key
      then (do key ← get_public_key p codecs; pure (exit_code (is_some key)))
      else if given args.sign
      then (do sig ← sign_challenge p (text_of args.sign); pure (exit_code (is_some sig)))
      else pure 1
