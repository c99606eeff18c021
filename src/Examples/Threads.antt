-- ===== src/Examples/Threads.antt =====
-- Two clients of the bridge at the same time.
use somethingremotelygood.Base.{none, some, List, [], ◌∷◌, ◌++◌, codes, ok, ◌≡◌, refl}
use somethingremotelygood.Firmware.{packet}
use somethingremotelygood.Wire.{unpack, to_bytes}
use somethingremotelygood.Bridge.Replies.{status_reply}
use somethingremotelygood.Bridge.Object.{Bridge, serial_read, set_timeout}
use somethingremotelygood.Bridge.Link.{send_to_esp32, recv_from_esp32, accept}
use somethingremotelygood.Bridge.Threads.{
  unlock_call, lock_call, done, sending, asking, Event, submit, advance, run_threads, start,
}
use somethingremotelygood.Bridge.Threads.Invariant.{Serial}
use somethingremotelygood.Bridge.Threads.Order.{run_threads-Serial}
use somethingremotelygood.Bridge.Threads.Finish.{IsFinished, holder-IsFinished}
use somethingremotelygood.Examples.Line.{line, line-Progress, bridge}

-- a device that answers success, and then failure
abbrev two_answers : Bridge line
two_answers = bridge [] (packet 6 [] ∷ packet 5 [] ∷ [])

-- the second client asks while the first has the lock
abbrev contended : List Event
contended = submit 0 (unlock_call (codes "pw")) ∷ submit 1 lock_call ∷ advance 0 ∷ advance 1 ∷ []

abbrev to_the_end : List Event
to_the_end = advance 1 ∷ advance 0 ∷ advance 1 ∷ advance 0 ∷ advance 1 ∷ advance 1 ∷ advance 1 ∷ []

contended_run :
    let s = run_threads contended (start two_answers) in
    (s.holder ≡ some 0)
    × (s.stage 0 ≡ sending (unlock_call (codes "pw")) (3, codes "pw"))
    × (s.stage 1 ≡ asking lock_call (4, []))
unfolding run_threads
contended_run = (refl, refl, refl)

finished_run :
    let s = run_threads (contended ++ to_the_end) (start two_answers) in
    (s.holder ≡ none) × (s.stage 0 ≡ done (ok (6 ∷ []))) × (s.stage 1 ≡ done (ok (5 ∷ [])))
unfolding run_threads send_to_esp32 recv_from_esp32 serial_read set_timeout accept unpack to_bytes
    status_reply
finished_run = (refl, refl, refl)

run_threads-Serial_example :
    Serial two_answers (run_threads (contended ++ to_the_end) (start two_answers))
run_threads-Serial_example = run_threads-Serial two_answers (contended ++ to_the_end)

holder-IsFinished_example :
    IsFinished 0
      (run_threads (advance 0 ∷ advance 0 ∷ []) (run_threads contended (start two_answers)))
unfolding run_threads
holder-IsFinished_example = holder-IsFinished line-Progress two_answers contended 0 refl
