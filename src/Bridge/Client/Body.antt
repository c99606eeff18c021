-- ===== src/Bridge/Client/Body.antt =====
-- The body of a message is read whole, however the stream cuts it.
use somethingremotelygood.Base.{
  ℕ, zero, suc, ◌+◌, ◌-◌, ◌≤◌, ◌<◌, [], ◌∷◌, ◌++◌, Bytes, length, take, drop, length-append,
  length-take, length-drop, take-drop-append, take-append_le, drop-append_le, append_assoc,
  append-nil, ok, raised, Error, ◌≡◌, refl, sym, ap, ◌∙◌, arith, Result-cases, got, failed, ran_out,
  dec_lt, le→not-ltb,
}
use somethingremotelygood.Base.Effects.Ends.{Ends}
use somethingremotelygood.Port.{Port}
use somethingremotelygood.Bridge.Socket.{Socket, SocketEnds, Stream}
use somethingremotelygood.Bridge.Client.{Session, read_body}

joined :
    (received : Bytes) (m x : ℕ) (more : Bytes)
    → (received ++ (x ∷ take m more)) ++ drop m more ≡ received ++ (x ∷ more)
joined received m x more =
    append_assoc received (x ∷ take m more) (drop m more)
    ∙ ap (λ zs. received ++ (x ∷ zs)) (take-drop-append m more)

module _ {k : Socket} {p : Port} where
  pub read_body_done :
      (fuel n : ℕ) (received : Bytes) (s : Session k p)
      → n ≤ length received
      → read_body fuel n received s ≡ (ok received, s)
  unfolding read_body
  read_body_done zero n received s h = rw (le→not-ltb (length received) n h)
  read_body_done (suc fuel) n received s h = ground arith

  pub read_body_more :
      (fuel n : ℕ) (received : Bytes) (c : ℕ) (cs : Bytes) (s : Session k p)
      → length received < n
      → (k.recv (n - length received) s.conn).0 ≡ ok (c ∷ cs)
      → read_body (suc fuel) n received s
        ≡ read_body fuel n
            (received ++ (c ∷ cs))
            (record s { conn = (k.recv (n - length received) s.conn).1 })
  unfolding read_body
  read_body_more fuel n received c cs s h e = ground arith

  pub read_body_eof :
      (fuel n : ℕ) (received : Bytes) (s : Session k p)
      → length received < n
      → (k.recv (n - length received) s.conn).0 ≡ ok []
      → read_body (suc fuel) n received s
        ≡ (ok received, record s { conn = (k.recv (n - length received) s.conn).1 })
  unfolding read_body
  read_body_eof fuel n received s h e = ground arith

  pub read_body_raised :
      (fuel n : ℕ) (received : Bytes) (x : Error) (s : Session k p)
      → length received < n
      → (k.recv (n - length received) s.conn).0 ≡ raised x
      → read_body (suc fuel) n received s
        ≡ (raised x, record s { conn = (k.recv (n - length received) s.conn).1 })
  unfolding read_body
  read_body_raised fuel n received x s h e = ground arith

  -- an exception at the second read
  pub read_body_cut :
      (fuel n x : ℕ) (part : Bytes) (e : Error) (s : Session k p)
      → 2 ≤ fuel
      → suc (length part) < n
      → (k.recv n s.conn).0 ≡ ok (x ∷ part)
      → (k.recv (n - suc (length part)) (k.recv n s.conn).1).0 ≡ raised e
      → read_body fuel n [] s
        ≡ (raised e, record s { conn = (k.recv (n - suc (length part)) (k.recv n s.conn).1).1 })
  read_body_cut zero n x part e s f h e1 e2 = absurd (omega arith)
  read_body_cut (suc zero) n x part e s f h e1 e2 = absurd (omega arith)
  read_body_cut (suc (suc fuel)) n x part e s f h e1 e2 =
      let same : n - 0 ≡ n = omega arith in
      read_body_more (suc fuel) n [] x part s (omega arith) (rw (same) e1)
      ∙ rw same (read_body_raised fuel n (x ∷ part) e _ h e2)

  -- With a round for each byte that is missing the loop comes to an end.
  pub Ends-read_body :
      (v : SocketEnds k) (fuel n : ℕ) (received : Bytes)
      → n ≤ length received + fuel
      → Ends {S = Session k p} (read_body fuel n received)
  Ends-read_body v zero n received h = record {
    at = λ s. rw (read_body_done zero n received s (omega arith)) (λ q. cc);
  }
  Ends-read_body v (suc fuel) n received h = record {
    at = λ s. elim (dec_lt (length received) n) [
      | no full ↦ rw (read_body_done (suc fuel) n received s (omega arith)) (λ q. cc)
      | yes short ↦ elim (Result-cases (k.recv (n - length received) s.conn).0) [
        | got ([], e) ↦ rw (read_body_eof fuel n received s short e) (λ q. cc)
        | got (c ∷ cs, e) ↦ rw (read_body_more fuel n received c cs s short e) (
            (Ends-read_body v fuel n (received ++ (c ∷ cs))
                (omega (arith, length-append {0} received (c ∷ cs)))).at
              _)
        | failed (x, e) ↦ rw (read_body_raised fuel n received x s short e) (λ q. cc)
        | ran_out e ↦ absurd (v.recv_ends (n - length received) s.conn e)
      ]
    ];
  }

  -- the first chunk, of `m + 1` bytes
  first_chunk :
      (w : Stream k) (n m : ℕ) (received more rest : Bytes) (x : ℕ) (s : Session k p)
      → m ≤ length more
      → w.chunk (n - length received) s.conn ≡ suc m
      → w.pending s.conn ≡ (x ∷ more) ++ rest
      → ((k.recv (n - length received) s.conn).0 ≡ ok (x ∷ take m more))
        × (w.pending (k.recv (n - length received) s.conn).1 ≡ drop m more ++ rest)
  first_chunk w n m received more rest x s h c a = (
    w.recv_result (n - length received) s.conn ∙ rw (a, c, take-append_le m more rest h),
    w.recv_pending (n - length received) s.conn ∙ rw (a, c, drop-append_le m more rest h),
  )

  -- A body that has arrived is read in full, in whatever chunks, and what follows it stays.
  pub read_body-whole :
      (w : Stream k) (fuel n : ℕ) (received more rest : Bytes) (s : Session k p)
      → n ≡ length received + length more
      → length more ≤ fuel
      → w.pending s.conn ≡ more ++ rest
      → (s' : Session k p) × (read_body fuel n received s ≡ (ok (received ++ more), s'))
        × (w.pending s'.conn ≡ rest)
        × (s'.bridge ≡ s.bridge)
  read_body-whole w fuel n received [] rest s e h a = (
    s,
    read_body_done fuel n received s (omega arith) ∙ (λ i. (ok (sym (append-nil received) i), s)),
    a,
    refl,
  )
  read_body-whole w zero n received (x ∷ more) rest s e h a = absurd (omega arith)
  read_body-whole w (suc fuel) n received (x ∷ more) rest s e h a =
      let got_some : 0 < w.chunk (n - length received) s.conn =
        w.chunk_pos (n - length received) s.conn (omega arith) (λ q. cc) in
      let m = w.chunk (n - length received) s.conn - 1 in
      let c : w.chunk (n - length received) s.conn ≡ suc m = omega arith in
      let small : m ≤ length more = omega (arith, w.chunk_le (n - length received) s.conn) in
      let (r, a') = first_chunk w n m received more rest x s small c a in
      let (s', e', b, kept) =
        read_body-whole w fuel n (received ++ (x ∷ take m more)) (drop m more) rest
          (record s { conn = (k.recv (n - length received) s.conn).1 })
          (omega (
            arith,
            length-append {0} received (x ∷ take m more),
            length-take {0} m more,
            length-drop {0} m more,
          ))
          (omega (arith, length-drop {0} m more)) a' in
      (
        s',
        read_body_more fuel n received x (take m more) s (omega arith) r
            ∙ e'
            ∙ (λ i. (ok (joined received m x more i), s')),
        b,
        kept,
      )
