-- ===== src/Keytool/Commands/Plain.antt =====
-- Key generation without a password.
use somethingremotelygood.Base.{
  ℕ, zero, suc, ◌+◌, ◌<◌, Bool, true, false, Option, none, some, Bytes, codes, Exec, ok, ◌≡◌, refl,
  arith, Bool-cases, lt→ltb, le→not-ltb, dec_lt, inl, inr,
}
use somethingremotelygood.Base.Effects.{◌>>=◌}
use somethingremotelygood.Port.{Port}
use somethingremotelygood.Port.Laws.{Lifecycle}
use somethingremotelygood.Base.Texts.{contains}
use somethingremotelygood.Keytool.Commands.{
  Codecs, open_port, wait_for_key, generate_plain, generate_key,
}

-- No call of the port raises an exception.
pub record IsCalm (p : Port) : Type 0 where
  pub connect_returns : (d : p.Device) → (p.connect d).0 ≡ ok tt
  pub reset_returns : (d : p.Device) → (p.reset_input_buffer d).0 ≡ ok tt
  pub close_returns : (d : p.Device) → (p.close d).0 ≡ ok tt
  pub readline_returns : (t : Option ℕ) (d : p.Device) → (b : Bytes) × ((p.readline t d).0 ≡ ok b)

bind_returns :
    {S A B : Type 0} (m : Exec S A) (f : A → Exec S B) (s : S) (a : A) (b : B)
    → (m s).0 ≡ ok a
    → (f a (m s).1).0 ≡ ok b
    → ((m >>= f) s).0 ≡ ok b
bind_returns m f s a b e h = rw e h

module _ (p : Port) (l : Lifecycle p) (c : IsCalm p) (codecs : Codecs) where
  wait_for_key_returns :
      (fuel limit : ℕ) (d : p.Device)
      → limit < p.now d + fuel
      → 0 < fuel
      → (b : Bool) × ((wait_for_key p codecs fuel limit d).0 ≡ ok b)
  unfolding wait_for_key
  wait_for_key_returns zero limit d h f = absurd (omega arith)
  wait_for_key_returns (suc fuel) limit d h f = elim (dec_lt (p.now d) limit) [
    | no late ↦ (false, rw (le→not-ltb (p.now d) limit (omega arith), wait_for_key) refl)
    | yes early ↦
        let (line, e) = c.readline_returns (some 2000) d in
        elim (Bool-cases (contains (codes "Key generation successful") (codecs.decode_line line))) [
          | inl found ↦ (
            true,
            rw (lt→ltb (p.now d) limit early, wait_for_key)
                (bind_returns (p.readline (some 2000)) _ d line true e (rw found refl)),
          )
          | inr other ↦
              let (b, q) =
                wait_for_key_returns fuel limit (p.readline (some 2000) d).1
                  (omega (arith, l.readline_ticks (some 2000) d))
                  (omega (arith, l.readline_ticks (some 2000) d)) in
              (
                b,
                rw (lt→ltb (p.now d) limit early, wait_for_key)
                    (bind_returns (p.readline (some 2000)) _ d line b e (rw other q)),
              )
        ]
  ]

  generate_plain-true : (d : p.Device) → (generate_plain p codecs d).0 ≡ ok true
  unfolding generate_plain
  generate_plain-true d =
      let (b, q) = wait_for_key_returns 30001 (p.now d + 30000) d (omega arith) (omega arith) in
      rw (q, c.close_returns (wait_for_key p codecs 30001 (p.now d + 30000) d).1) refl

  -- Over a port that raises nothing, key generation without a password returns True whatever the
  -- device prints, also if it never reports a key.
  pub generate_key-true : (d : p.Device) → (generate_key p codecs none d).0 ≡ ok true
  unfolding generate_key open_port
  generate_key-true d =
      let ready = (p.reset_input_buffer (p.sleep 2000 (p.connect d).1)).1 in
      rw
        (
          c.connect_returns d,
          c.reset_returns (p.sleep 2000 (p.connect d).1),
          generate_plain-true ready,
        )
        refl
