-- ===== src/PdfReport/Page/Shown.antt =====
-- Calls with a known result that write known texts to the pages.
use somethingremotelygood.Base.{
  Bool, true, false, none, List, [], ◌∷◌, ◌++◌, append_assoc, append-nil, Result, Error, ok, raised,
  stuck, Exec, ◌≡◌, refl, sym, ap, ◌∙◌, if◌then◌else◌,
}
use somethingremotelygood.Base.Effects.{pure, lift, ◌>>=◌}
use somethingremotelygood.PdfReport.Page.Contents.{Mark, written, saved}
use somethingremotelygood.PdfReport.Canvas.{Draw, cell, multi_cell, output, Refusal, draw}

-- What a call leaves: its text, or the file.
abbrev pub shown_by : Draw → List Mark
shown_by (cell width height text border fill next) = written text ∷ []
shown_by (multi_cell width height text border) = written text ∷ []
shown_by (output path) = saved path ∷ []
shown_by _ = []

abbrev pub shown : List Draw → List Mark
shown [] = []
shown (call ∷ calls) = shown_by call ++ shown calls

shown-append : (a b : List Draw) → shown (a ++ b) ≡ shown a ++ shown b
shown-append [] b = refl
shown-append (c ∷ a) b =
    ap (λ (ls : List Mark). shown_by c ++ ls) (shown-append a b)
    ∙ sym (append_assoc (shown_by c) (shown a) (shown b))

abbrev Adds : {A : Type 0} → Result A → List Mark → List Mark → List Mark → Type 0
Adds (ok a) ts before after = after ≡ before ++ ts
Adds _ ts before after = Unit {0}

-- A call that has the result in every state, and if it returns has written the texts.
pub record Shows (ts : List Mark) {A : Type 0} (r : Result A) (m : Exec (List Draw) A)
    : Type 0 where
  pub at : (s : List Draw) → ((m s).0 ≡ r) × Adds r ts (shown s) (shown (m s).1)

module _ {A : Type 0} where
  pub Shows-as :
      {ts us : List Mark} {r : Result A} {m : Exec (List Draw) A}
      → Shows ts r m
      → ts ≡ us
      → Shows us r m
  Shows-as k e = rw (sym e) k

  pub Shows-pure : (a : A) → Shows [] (ok a) (pure a)
  Shows-pure a = record { at = λ s. (refl, sym (append-nil (shown s))) }

  pub Shows-raised :
      (ts : List Mark) (e : Error) (r : Result A) → r ≡ raised e → Shows ts (raised e) (lift r)
  Shows-raised ts e r q = record { at = λ s. (q, tt) }

Adds-append :
    {B : Type 0} (ts us : List Mark) (q : Result B) (a b c : List Mark)
    → b ≡ a ++ ts
    → Adds q us b c
    → Adds q (ts ++ us) a c
Adds-append ts us (ok x) a b c e h = h ∙ (rw e (append_assoc a ts us))
Adds-append ts us (raised x) a b c e h = tt
Adds-append ts us stuck a b c e h = tt

module _ {B : Type 0} {ts us : List Mark} where
  pub Shows-then :
      (q : Result B) (m : Exec (List Draw) (Unit {0})) (f : Unit {0} → Exec (List Draw) B)
      → Shows ts (ok tt) m
      → Shows us q (f tt)
      → Shows (ts ++ us) q (m >>= f)
  Shows-then q m f hm hf = record {
    at = λ s.
        let (e, a) = hm.at s in
        let (e', b) = hf.at (m s).1 in
        rw e (e', Adds-append ts us q (shown s) (shown (m s).1) _ a b);
  }

  pub Shows-if :
      (b : Bool) (e : Error) (q : Result B) (m : Exec (List Draw) (Unit {0}))
      (f : Unit {0} → Exec (List Draw) B)
      → Shows ts (if b then ok tt else raised e) m
      → Shows us q (f tt)
      → Shows (ts ++ us) (if b then q else raised e) (m >>= f)
  Shows-if true e q m f hm hf = Shows-then q m f hm hf
  Shows-if false e q m f hm hf = record { at = λ s. let (k, a) = hm.at s in rw k (refl, tt) }

pub Shows-known :
    {A B : Type 0} {ts : List Mark} (r : Result A) (a : A) (q : Result B)
    (f : A → Exec (List Draw) B)
    → r ≡ ok a
    → Shows ts q (f a)
    → Shows ts q (lift r >>= f)
Shows-known r a q f e k = rw e k

pub Shows-draw :
    {refuses : Refusal} (accepts : (calls : List Draw) (call : Draw) → refuses calls call ≡ none)
    (call : Draw)
    → Shows (shown_by call) (ok tt) (draw refuses call)
unfolding draw
Shows-draw accepts call = record {
  at = λ s.
      rw (accepts s call) (refl, shown-append s (call ∷ []) ∙ rw (append-nil (shown_by call)) refl);
}
