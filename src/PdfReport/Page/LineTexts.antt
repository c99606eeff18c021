-- ===== src/PdfReport/Page/LineTexts.antt =====
-- Calls that write lines of the history.
use somethingremotelygood.Base.{not-ltb→le}
use somethingremotelygood.Base.{
  ℕ, ◌+◌, ◌-◌, ◌≤◌, Option, none, some, List, [], ◌∷◌, ◌++◌, append_assoc, append-nil, Bytes, codes,
  length, take, length-append, length-take, All, All-append, ltb, ◌==◌, Result, Error, ok, raised,
  stuck, got, failed, ran_out, Result-cases, Bool-cases, inl, inr, Exec, ◌≡◌, refl, sym, ap, ◌∙◌,
  arith, if◌then◌else◌,
}
use somethingremotelygood.Base.Effects.{lift, ◌>>=◌}
use somethingremotelygood.Base.Effects.Same.{Same}
use somethingremotelygood.Sanitizer.Lines.{decimal, pad}
use somethingremotelygood.PdfReport.Canvas.{Draw, cell, Refusal, drawn, draw}
use somethingremotelygood.PdfReport.History.{history_line, shorten}

-- The text of a line of the history: those are the cells of a height of 3.5.
abbrev pub line_of : Draw → List Bytes
line_of (cell width height text border fill next) = if height == 35 then text ∷ [] else []
line_of _ = []

abbrev pub line_texts : List Draw → List Bytes
line_texts [] = []
line_texts (call ∷ calls) = line_of call ++ line_texts calls

pub line_texts-append : (a b : List Draw) → line_texts (a ++ b) ≡ line_texts a ++ line_texts b
line_texts-append [] b = refl
line_texts-append (c ∷ a) b =
    ap (λ (ls : List Bytes). line_of c ++ ls) (line_texts-append a b)
    ∙ sym (append_assoc (line_of c) (line_texts a) (line_texts b))

abbrev pub Fits : Bytes → Type 0
Fits text = length text ≤ 120

shorten-Fits : (line : Bytes) → Fits (shorten line)
shorten-Fits line = elim (Bool-cases (ltb 120 (length line))) [
  | inl long ↦
      rw long
        (omega (arith, length-append {0} (take 117 line) (codes "..."), length-take {0} 117 line))
  | inr fits ↦ rw fits (not-ltb→le 120 (length line) fits)
]

pub history_line-Fits : (i : ℕ) (cmd : Bytes) → Fits (history_line i cmd)
unfolding history_line
history_line-Fits i cmd =
    shorten-Fits (pad (4 - length (decimal i)) (decimal i) ++ (codes "| " ++ cmd))

-- A call that adds `n` lines of the history at most, each of which fits.
pub record Writes (n : ℕ) {A : Type 0} (m : Exec (List Draw) A) : Type 0 where
  pub few : (calls : List Draw) → length (line_texts (m calls).1) ≤ length (line_texts calls) + n
  pub fit : (calls : List Draw) → All Fits (line_texts calls) → All Fits (line_texts (m calls).1)

module _ {A : Type 0} where
  pub Writes-none : (m : Exec (List Draw) A) → Same line_texts m → Writes 0 m
  Writes-none m same = record {
    few = λ calls. rw (same.at calls) (omega arith);
    fit = λ calls h. rw (same.at calls) h;
  }

module _ {A B : Type 0} where
  pub Writes-bind :
      (a b n : ℕ) (m : Exec (List Draw) A) (f : A → Exec (List Draw) B)
      → a + b ≤ n
      → Writes a m
      → ((x : A) → Writes b (f x))
      → Writes n (m >>= f)
  Writes-bind a b n m f le hm hf = record {
    few = λ calls. elim (Result-cases (m calls).0) [
      | got (x, e) ↦ rw e (omega (arith, hm.few calls, (hf x).few (m calls).1))
      | failed (x, e) ↦ rw e (omega (arith, hm.few calls))
      | ran_out e ↦ rw e (omega (arith, hm.few calls))
    ];
    fit = λ calls h. elim (Result-cases (m calls).0) [
      | got (x, e) ↦ rw e ((hf x).fit (m calls).1 (hm.fit calls h))
      | failed (x, e) ↦ rw e (hm.fit calls h)
      | ran_out e ↦ rw e (hm.fit calls h)
    ];
  }

  -- a call before that writes no line, and one after
  pub Writes-after :
      (n : ℕ) (m : Exec (List Draw) A) (f : A → Exec (List Draw) B)
      → Same line_texts m
      → ((x : A) → Writes n (f x))
      → Writes n (m >>= f)
  Writes-after n m f hm hf = Writes-bind 0 n n m f (omega arith) (Writes-none m hm) hf

module _ (refuses : Refusal) where
  pub drawn-Same :
      (call : Draw) (o : Option Error) (calls : List Draw)
      → line_of call ≡ []
      → line_texts (drawn call o calls).1 ≡ line_texts calls
  drawn-Same call none calls h =
      line_texts-append calls (call ∷ []) ∙ rw h (append-nil (line_texts calls))
  drawn-Same call (some e) calls h = refl

  pub Same-draw : (call : Draw) → line_of call ≡ [] → Same line_texts (draw refuses call)
  unfolding draw
  Same-draw call h = record { at = λ calls. drawn-Same call (refuses calls call) calls h }

  drawn_few :
      (call : Draw) (o : Option Error) (calls : List Draw) (text : Bytes)
      → line_of call ≡ text ∷ []
      → length (line_texts (drawn call o calls).1) ≤ length (line_texts calls) + 1
  drawn_few call none calls text h =
      rw (line_texts-append calls (call ∷ []), h)
        (omega (arith, length-append {0} (line_texts calls) (text ∷ [])))
  drawn_few call (some e) calls text h = omega arith

  drawn_fit :
      (call : Draw) (o : Option Error) (calls : List Draw) (text : Bytes)
      → line_of call ≡ text ∷ []
      → Fits text
      → All Fits (line_texts calls)
      → All Fits (line_texts (drawn call o calls).1)
  drawn_fit call none calls text h fits all =
      rw (line_texts-append calls (call ∷ []), h)
        (All-append Fits (line_texts calls) (text ∷ []) all (fits, tt))
  drawn_fit call (some e) calls text h fits all = all

  pub Writes-draw :
      (call : Draw) (text : Bytes)
      → line_of call ≡ text ∷ []
      → Fits text
      → Writes 1 (draw refuses call)
  unfolding draw
  Writes-draw call text h fits = record {
    few = λ calls. drawn_few call (refuses calls call) calls text h;
    fit = λ calls all. drawn_fit call (refuses calls call) calls text h fits all;
  }

pub Writes-lift :
    {A B : Type 0} (n : ℕ) (r : Result A) (f : A → Exec (List Draw) B)
    → ((x : A) → r ≡ ok x → Writes n (f x))
    → Writes n (lift r >>= f)
Writes-lift n (ok x) f h = h x refl
Writes-lift n (raised e) f h = record { few = λ calls. omega arith; fit = λ calls all. all }
Writes-lift n stuck f h = record { few = λ calls. omega arith; fit = λ calls all. all }
