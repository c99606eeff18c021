-- ===== src/Examples/Keytool.antt =====
-- The tool on the concrete line: runs, and the theorems at inputs.
use somethingremotelygood.Base.{◌++◌}
use somethingremotelygood.Base.Hex.{fromhex}
use somethingremotelygood.Base.Texts.{contains}
use somethingremotelygood.Keytool.Commands.{open_port}
use somethingremotelygood.Keytool.Commands.Answers.{Answers, sign_challenge-answer}
use somethingremotelygood.Examples.Line.{line-Buffered}
use somethingremotelygood.Base.{
  true, false, none, some, List, [], ◌∷◌, Bytes, codes, ok, raised, value_error, ◌≡◌, refl, arith,
}
use somethingremotelygood.Base.Effects.{pure, on_exception, ◌>>◌}
use somethingremotelygood.Base.Effects.Yields.{Yields}
use somethingremotelygood.Firmware.{packet}
use somethingremotelygood.Wire.{unpack, pack, to_bytes}
use somethingremotelygood.Bridge.Object.{on_device}
use somethingremotelygood.Bridge.Link.{send_to_esp32, recv_from_esp32}
use somethingremotelygood.Keytool.Packets.{send_packet, read_packet_within}
use somethingremotelygood.Keytool.Packets.Agreement.{caught, open_bridge, read_packet-recv}
use somethingremotelygood.Keytool.Packets.Sending.{send_packet-send}
use somethingremotelygood.Keytool.Commands.{Codecs, sign_challenge, generate_key}
use somethingremotelygood.Keytool.Commands.Outcomes.{IsSized, sign_challenge-Yields}
use somethingremotelygood.Keytool.Commands.Plain.{IsCalm, generate_key-true}
use somethingremotelygood.Keytool.Main.{Arguments, run_main}
use somethingremotelygood.Keytool.Main.Exits.{IsExit, run_main-IsExit}
use somethingremotelygood.Examples.Line.{Line, line, line-Progress, line-Lifecycle}

abbrev ascii : Codecs
ascii = record { encode = λ s. some s; decode_line = λ s. s; b64encode = λ s. s }

abbrev fresh : List Bytes → Line
fresh replies = record { rx = []; tx = []; replies = replies; clock = 0 }

abbrev sig : Bytes
sig = codes "0123456789abcdef0123456789abcdef0123456789abcdef0123456789abcdef"

abbrev sign_args : Arguments
sign_args = record {
  generate = false;
  get_key = false;
  sign = some (codes "00 fF");
  password = none;
  unlock = false;
  lock = false;
}

hex_runs :
    (fromhex (codes "00 fF") ≡ ok (0 ∷ 255 ∷ []))
    × (fromhex (codes "0 0") ≡ raised value_error)
    × (contains (codes "key") (codes "a key.") ≡ true)
    × (contains (codes "key") (codes "a ke y") ≡ false)
unfolding fromhex contains
hex_runs = (refl, refl, refl, refl)

signed :
    ((sign_challenge line (codes "00 fF") (fresh (packet 14 sig ∷ []))).0 ≡ ok (some sig))
    × ((sign_challenge line (codes "00 fF") (fresh (packet 14 sig ∷ []))).1.tx
        ≡ 1 ∷ 0 ∷ 0 ∷ 2 ∷ 0 ∷ 255 ∷ [])
    × ((sign_challenge line (codes "00 fF") (fresh (packet 32 [] ∷ []))).0 ≡ ok none)
unfolding sign_challenge to_bytes pack unpack
signed = (refl, refl, refl)

exit_runs :
    ((run_main line ascii sign_args (fresh (packet 14 sig ∷ []))).0 ≡ ok 0)
    × ((run_main line ascii (record sign_args { sign = none }) (fresh [])).0 ≡ ok 1)
    × ((run_main line ascii (record sign_args { unlock = true }) (fresh [])).0 ≡ ok 1)
unfolding run_main sign_challenge to_bytes pack unpack
exit_runs = (refl, refl, refl)

line-IsCalm : IsCalm line
line-IsCalm = record {
  connect_returns = λ d. refl;
  reset_returns = λ d. refl;
  close_returns = λ d. refl;
  readline_returns = λ t d. (d.rx, refl);
}

read_packet-recv_example :
    ((recv_from_esp32 10000 (open_bridge line true (some 5000) (fresh []))).0
      ≡ caught (read_packet_within line 10000 (fresh [])).0)
    × ((recv_from_esp32 10000 (open_bridge line true (some 5000) (fresh []))).1.device
        ≡ (read_packet_within line 10000 (fresh [])).1)
read_packet-recv_example = read_packet-recv line true line-Progress (some 5000) 10000 (fresh [])

send_packet-send_example :
    send_to_esp32 3 (codes "pw") (open_bridge line true (some 5000) (fresh []))
    ≡ on_exception
        (on_device (send_packet line 3 (codes "pw")) >> pure true)
        (pure false)
        (open_bridge line true (some 5000) (fresh []))
send_packet-send_example =
    send_packet-send line true 3 (codes "pw") (some 5000) (fresh []) (omega arith) (omega arith)

sign_challenge-Yields_example : Yields (IsSized 64) (sign_challenge line (codes "00fF"))
sign_challenge-Yields_example =
    sign_challenge-Yields line line-Progress line-Lifecycle (codes "00fF")

generate_key-true_example : (generate_key line ascii none (fresh [])).0 ≡ ok true
generate_key-true_example = generate_key-true line line-Lifecycle line-IsCalm ascii (fresh [])

run_main-IsExit_example : Yields IsExit (run_main line ascii sign_args)
run_main-IsExit_example = run_main-IsExit line line-Progress line-Lifecycle ascii sign_args

sign_answer :
    Answers line line-Progress line-Buffered 1
      (0 ∷ 255 ∷ [])
      30000
      14
      (sig ++ [])
      (fresh (packet 14 sig ∷ []))
unfolding send_packet open_port to_bytes pack
sign_answer = record {
  opened = record (fresh (packet 14 sig ∷ [])) { clock = 2000 };
  sent = record {
    rx = packet 14 sig;
    tx = 1 ∷ 0 ∷ 0 ∷ 2 ∷ 0 ∷ 255 ∷ [];
    replies = [];
    clock = 2000;
  };
  noise = [];
  rest = [];
  opens = refl;
  sends = refl;
  arrived = refl;
  no_zero = tt;
  fits = omega arith;
  quick = omega arith;
  closes = λ e. refl;
}

sign_challenge-answer_example :
    (sign_challenge line (codes "00 fF") (fresh (packet 14 sig ∷ []))).0 ≡ ok (some sig)
sign_challenge-answer_example =
    sign_challenge-answer line line-Progress line-Buffered (codes "00 fF") (0 ∷ 255 ∷ []) sig []
      (fresh (packet 14 sig ∷ [])) hex_runs.0 refl sign_answer

unlock_answer :
    Answers line line-Progress line-Buffered 3 (codes "pw") 30000 5 [] (fresh (packet 5 [] ∷ []))
unfolding send_packet open_port to_bytes pack
unlock_answer = record {
  opened = record (fresh (packet 5 [] ∷ [])) { clock = 2000 };
  sent = record { rx = packet 5 []; tx = 3 ∷ 0 ∷ 0 ∷ 2 ∷ codes "pw"; replies = []; clock = 2000 };
  noise = [];
  rest = [];
  opens = refl;
  sends = refl;
  arrived = refl;
  no_zero = tt;
  fits = omega arith;
  quick = omega arith;
  closes = λ e. refl;
}
