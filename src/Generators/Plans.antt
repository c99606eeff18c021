-- ===== src/Generators/Plans.antt =====
-- The rows of a list of sessions.
use somethingremotelygood.Base.{
  ℕ, ◌+◌, List, [], ◌∷◌, ◌++◌, Bytes, length, length-append, All, All-append, ◌≡◌, refl, sym, ap,
  ◌∙◌, append_assoc, append-nil, arith,
}
use somethingremotelygood.Generators.Sessions.{start_time}
use somethingremotelygood.Generators.Writes.{Event, visit}

-- One session by what was drawn: `second` is counted from the hour, `gap` from the login to the
-- connection.
pub record Plan : Type 0 where
  pub day : ℕ
  pub hour : ℕ
  pub second : ℕ
  pub gap : ℕ
  pub duration : ℕ

module _ (user_id container_id : Bytes) (now : ℕ) where
  abbrev pub plan_rows : Plan → List Event
  plan_rows plan =
      visit user_id container_id (start_time now plan.day plan.hour plan.second) plan.gap
        plan.duration

  abbrev pub all_rows : List Plan → List Event
  all_rows [] = []
  all_rows (plan ∷ plans) = plan_rows plan ++ all_rows plans

  -- the rows of `n` sessions with a property
  abbrev pub Planned : (Plan → Type 0) → ℕ → List Event → Type 0
  Planned P n es = (plans : List Plan) × (es ≡ all_rows plans) × All P plans × (length plans ≡ n)

  pub all_rows-append :
      (plans more : List Plan) → all_rows plans ++ all_rows more ≡ all_rows (plans ++ more)
  all_rows-append [] more = refl
  all_rows-append (plan ∷ plans) more =
      append_assoc (plan_rows plan) (all_rows plans) (all_rows more)
      ∙ ap (λ es. plan_rows plan ++ es) (all_rows-append plans more)

  module _ (P : Plan → Type 0) where
    pub Planned-none : Planned P 0 []
    Planned-none = ([], refl, tt, refl)

    pub Planned-one :
        (plan : Plan) (es : List Event) → es ≡ plan_rows plan → P plan → Planned P 1 es
    Planned-one plan es e p = (plan ∷ [], e ∙ sym (append-nil (plan_rows plan)), (p, tt), refl)

    pub Planned-append :
        (m n k : ℕ) (es fs : List Event)
        → k ≡ m + n
        → Planned P m es
        → Planned P n fs
        → Planned P k (es ++ fs)
    Planned-append m n k es fs sum (ps, e, p, a) (qs, f, q, b) = (
      ps ++ qs,
      rw (e, f) (all_rows-append ps qs),
      All-append P ps qs p q,
      omega (arith, length-append ps qs),
    )

  pub All-weaken :
      (P Q : Plan → Type 0)
      → ((plan : Plan) → P plan → Q plan)
      → (plans : List Plan) → All P plans
      → All Q plans
  All-weaken P Q k [] h = tt
  All-weaken P Q k (plan ∷ plans) (p, h) = (k plan p, All-weaken P Q k plans h)

  pub Planned-weaken :
      (P Q : Plan → Type 0) (n : ℕ) (es : List Event)
      → ((plan : Plan) → P plan → Q plan)
      → Planned P n es
      → Planned Q n es
  Planned-weaken P Q n es k (plans, e, p, a) = (plans, e, All-weaken P Q k plans p, a)
