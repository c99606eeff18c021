-- ===== src/Keytool/Main/Exits.antt =====
-- The exit codes of the tool.
use somethingremotelygood.Base.{ℕ, Bool, true, false, not, Exec, ◌≡◌, ◌⊎◌, inl, inr, refl}
use somethingremotelygood.Base.Effects.{pure, ◌>>=◌}
use somethingremotelygood.Base.Effects.Yields.{Yields, Yields-pure, Yields-if, Yields-bind}
use somethingremotelygood.Port.{Port}
use somethingremotelygood.Port.Laws.{Progress, Lifecycle}
use somethingremotelygood.Keytool.Commands.{Codecs, given, text_of}
use somethingremotelygood.Keytool.Commands.Outcomes.{
  IsSized, generate_key-Yields, get_public_key-Yields, unlock_agent-Yields, lock_agent-Yields,
  sign_challenge-Yields,
}
use somethingremotelygood.Keytool.Main.{Arguments, exit_code, is_some, run_main}

abbrev pub IsExit : ℕ → Type 0
IsExit c = (c ≡ 0) ⊎ (c ≡ 1)

exit_code-IsExit : (b : Bool) → IsExit (exit_code b)
exit_code-IsExit true = inl refl
exit_code-IsExit false = inr refl

module _ (p : Port) (w : Progress p) (l : Lifecycle p) (codecs : Codecs) where
  finish-Yields :
      {A : Type 0} (P : A → Type 0) (m : Exec p.Device A) (f : A → Bool)
      → Yields P m
      → Yields IsExit (m >>= λ a. pure (exit_code (f a)))
  finish-Yields P m f h = Yields-bind P m _ h λ a q. Yields-pure _ (exit_code-IsExit (f a))

  -- Whatever the arguments and the device, the tool comes to an end with exit code 0 or 1, and no
  -- exception leaves it.
  pub run_main-IsExit : (args : Arguments) → Yields IsExit (run_main p codecs args)
  unfolding run_main
  run_main-IsExit args =
      Yields-if args.generate _ _
        (finish-Yields _ _ (λ b. b) (generate_key-Yields p w l codecs args.password))
        (Yields-if args.unlock _ _
          (Yields-if (not (given args.password)) _ _ (Yields-pure 1 (inr refl))
            (finish-Yields _ _ (λ b. b) (unlock_agent-Yields p w l codecs (text_of args.password))))
          (Yields-if args.lock _ _ (finish-Yields _ _ (λ b. b) (lock_agent-Yields p w l)) (
            Yields-if args.get_key _ _
              (finish-Yields _ _ is_some (get_public_key-Yields p w l codecs))
              (Yields-if (given args.sign) _ _
                (finish-Yields (IsSized 64) _ is_some
                  (sign_challenge-Yields p w l (text_of args.sign)))
                (Yields-pure 1 (inr refl))))))
