-- ===== src/Sanitizer/Response/Schema.antt =====
-- What a validated answer is.
use somethingremotelygood.Base.{
  Bool, true, false, not, Option, none, some, [], ◌∷◌, ◌++◌, Bytes, codes, eqb, eqb→eq, All, ◌==◌,
  Result, ok, ◌≡◌, ◌≢◌, ◌⊎◌, inl, inr, refl, sym, ap, ◌∙◌, arith, Bool-cases, Option-cases,
  if◌then◌else◌,
}
use somethingremotelygood.Base.Results.{◌>>=◌, both_return}
use somethingremotelygood.Json.{
  Json, null, boolean, number, string, array, object, Items, Fields, end, field, get, has_key,
}
use somethingremotelygood.Sanitizer.Response.{
  risk_level, findings, open_brace, close_brace, up_to_close, find_braces, is_valid_risk,
  has_required, is_list, subscript, check_values, check_fields, check_response,
  validate_llm_response,
}

-- One of the three levels.
abbrev pub IsRisk : Bytes → Type 0
IsRisk s = (s ≡ codes "benign") ⊎ ((s ≡ codes "suspicious") ⊎ (s ≡ codes "malicious"))

-- An object with the four keys, a risk level of the three, and a list of findings.
pub record IsReport (j : Json) : Type 0 where
  pub fields : Fields
  pub risk : Bytes
  pub items : Items
  pub summary : Json
  pub recommendation : Json
  pub is_object : j ≡ object fields
  pub has_risk : get risk_level fields ≡ some (string risk)
  pub known_risk : IsRisk risk
  pub has_findings : get findings fields ≡ some (array items)
  pub has_summary : get (codes "summary") fields ≡ some summary
  pub has_recommendation : get (codes "recommendation") fields ≡ some recommendation

has_key-get : (k : Bytes) (fs : Fields) → has_key k fs ≡ true → (v : Json) × (get k fs ≡ some v)
unfolding has_key get
has_key-get k end h = cc
has_key-get k (field j v fs) h = elim (Bool-cases (eqb j k)) [
  | inl e ↦ (v, rw (e, get) refl)
  | inr e ↦ let (w, q) = has_key-get k fs (rw (e, has_key) at h) in (w, rw (e, get) q)
]

known : (s : Bytes) → is_valid_risk (string s) ≡ ok true → IsRisk s
unfolding is_valid_risk
known s h = elim (Bool-cases (eqb s (codes "benign"))) [
  | inl e ↦ inl (eqb→eq s (codes "benign") e)
  | inr e ↦ elim (Bool-cases (eqb s (codes "suspicious"))) [
    | inl f ↦ inr (inl (eqb→eq s (codes "suspicious") f))
    | inr f ↦ inr (inr (eqb→eq s (codes "malicious") (ground arith)))
  ]
]

valid-IsRisk : (v : Json) → is_valid_risk v ≡ ok true → (s : Bytes) × (v ≡ string s) × IsRisk s
valid-IsRisk (string s) h = (s, refl, known s h)
valid-IsRisk null h = unfold is_valid_risk in cc
valid-IsRisk (boolean b) h = unfold is_valid_risk in cc
valid-IsRisk (number n) h = unfold is_valid_risk in cc
valid-IsRisk (array items) h = unfold is_valid_risk in cc
valid-IsRisk (object fields) h = unfold is_valid_risk in cc

listed :
    (v : Json) (fs : Fields) {j : Json}
    → (if is_list v then some (object fs) else none) ≡ some j
    → (items : Items) × (v ≡ array items) × (j ≡ object fs)
listed (array items) fs h = (items, refl, cc)
listed (string s) fs h = cc
listed null fs h = cc
listed (boolean b) fs h = cc
listed (number n) fs h = cc
listed (object fields) fs h = cc

found : (o : Option Json) {v : Json} → subscript o ≡ ok v → o ≡ some v
found none h = cc
found (some v) h = ground arith

required :
    (fs : Fields)
    → has_required fs ≡ true
    → (s r : Json) × (get (codes "summary") fs ≡ some s)
      × (get (codes "recommendation") fs ≡ some r)
unfolding has_required
required fs h =
    let (s, p) = has_key-get (codes "summary") fs (ground arith) in
    let (r, q) = has_key-get (codes "recommendation") fs (ground arith) in (s, r, p, q)

-- the checks behind the one of the keys
check_values_sound :
    (fs : Fields) {j : Json}
    → has_required fs ≡ true
    → check_values fs ≡ ok (some j)
    → (j ≡ object fs) × IsReport j
unfolding check_values
check_values_sound fs {j} e h =
    let (risk, h1, q) = both_return (subscript (get risk_level fs)) _ h in
    let (valid, h2, q') = both_return (is_valid_risk risk) _ h1 in go risk valid q q' h2
  where
    go :
        (risk : Json) (valid : Bool)
        → subscript (get risk_level fs) ≡ ok risk
        → is_valid_risk risk ≡ ok valid
        → (if not valid
            then ok none
            else (subscript (get findings fs) >>= λ value.
                ok (if is_list value then some (object fs) else none)))
          ≡ ok (some j)
        → (j ≡ object fs) × IsReport j
    go risk false q q' h2 = cc
    go risk true q q' h2 =
        let (value, h3, f) = both_return (subscript (get findings fs)) _ h2 in
        let (r, is_string, known_level) = valid-IsRisk risk q' in
        let (items, is_array, same) = listed value fs {j = j} (ground arith) in
        let (s, c, has_s, has_c) = required fs e in
        (
          same,
          record {
            fields = fs;
            risk = r;
            items = items;
            summary = s;
            recommendation = c;
            is_object = same;
            has_risk = found _ q ∙ ap some is_string;
            known_risk = known_level;
            has_findings = found _ f ∙ ap some is_array;
            has_summary = has_s;
            has_recommendation = has_c;
          },
        )

none_not_some : (j : Json) → ◌≡◌ {A = Result (Option Json)} (ok none) (ok (some j)) → ⊥
none_not_some j q = cc

check_response_sound : (i : Json) {j : Json} → check_response i ≡ ok (some j) → (j ≡ i) × IsReport j
unfolding check_response check_fields
check_response_sound (object fs) {j} h = elim (Bool-cases (has_required fs)) [
  | inr e ↦ absurd (none_not_some j (rw (e, check_fields) at h))
  | inl e ↦ check_values_sound fs e (rw (e, check_fields) at h)
]
check_response_sound null h = cc
check_response_sound (boolean b) h = cc
check_response_sound (number n) h = cc
check_response_sound (string s) h = cc
check_response_sound (array items) h = cc

-- The part of a text from its first opening brace to its last closing one.
pub record Braced (s part : Bytes) : Type 0 where
  pub before : Bytes
  pub inside : Bytes
  pub after : Bytes
  pub splits : s ≡ before ++ (part ++ after)
  pub ends : part ≡ inside ++ (close_brace ∷ [])
  pub no_open : All (λ c. c ≢ open_brace) before
  pub no_close : All (λ c. c ≢ close_brace) after

pub record Closed (s part : Bytes) : Type 0 where
  pub inside : Bytes
  pub after : Bytes
  pub splits : s ≡ part ++ after
  pub ends : part ≡ inside ++ (close_brace ∷ [])
  pub no_close : All (λ c. c ≢ close_brace) after

no_close_left : (s : Bytes) → up_to_close s ≡ none → All (λ c. c ≢ close_brace) s
unfolding up_to_close
no_close_left [] h = tt
no_close_left (c ∷ s) h = elim (Option-cases (up_to_close s)) [
  | inl e ↦ (ground arith, no_close_left s e)
  | inr (t, e) ↦ ground arith
]

up_to_close-Closed : (s part : Bytes) → up_to_close s ≡ some part → Closed s part
unfolding up_to_close
up_to_close-Closed [] part h = cc
up_to_close-Closed (c ∷ s) part h = elim (Option-cases (up_to_close s)) [
  | inl e ↦ record {
    inside = [];
    after = s;
    splits = ground arith;
    ends = ground arith;
    no_close = no_close_left s e;
  }
  | inr (t, e) ↦
      (let r = up_to_close-Closed s t e in
        let same : part ≡ c ∷ t = ground arith in
        record {
          inside = c ∷ r.inside;
          after = r.after;
          splits = rw same (ap (λ (u : Bytes). c ∷ u) r.splits);
          ends = rw same (ap (λ (u : Bytes). c ∷ u) r.ends);
          no_close = r.no_close;
        })
]

find_braces-Braced : (s part : Bytes) → find_braces s ≡ some part → Braced s part
unfolding find_braces
find_braces-Braced [] part h = cc
find_braces-Braced (c ∷ s) part h = elim (Bool-cases (c == open_brace)) [
  | inl e ↦
      (let r = up_to_close-Closed (c ∷ s) part (rw (e, find_braces) at h) in
        record {
          before = [];
          inside = r.inside;
          after = r.after;
          splits = r.splits;
          ends = r.ends;
          no_open = tt;
          no_close = r.no_close;
        })
  | inr e ↦
      (let r = find_braces-Braced s part (rw (e, find_braces) at h) in
        record {
          before = c ∷ r.before;
          inside = r.inside;
          after = r.after;
          splits = ap (λ (u : Bytes). c ∷ u) r.splits;
          ends = r.ends;
          no_open = (ground arith, r.no_open);
          no_close = r.no_close;
        })
]

-- A validated answer is an object with the four keys, one of the three risk levels and a list of
-- findings, and it was read from the whole text, or, if that is no JSON, from the part from the
-- first opening brace to the last closing one.
pub validate-IsReport :
    (loads : Bytes → Option Json) (text : Bytes) (j : Json)
    → validate_llm_response loads text ≡ ok (some j)
    → IsReport j
      × ((loads text ≡ some j)
          ⊎ ((loads text ≡ none) × (part : Bytes) × Braced text part × (loads part ≡ some j)))
unfolding validate_llm_response
validate-IsReport loads text j h = elim (Option-cases (loads text)) [
  | inr (i, e) ↦
      (let (q, r) = check_response_sound i (rw (e, validate_llm_response) at h) in
        (r, inl (e ∙ ap some (sym q))))
  | inl e ↦ elim (Option-cases (find_braces text)) [
    | inl f ↦ absurd (none_not_some j (rw (e, f, validate_llm_response) at h))
    | inr (part, f) ↦ elim (Option-cases (loads part)) [
      | inl g ↦ absurd (none_not_some j (rw (e, f, g, validate_llm_response) at h))
      | inr (i, g) ↦
          (let (q, r) = check_response_sound i (rw (e, f, g, validate_llm_response) at h) in
            (r, inr (e, part, find_braces-Braced text part f, g ∙ ap some (sym q))))
    ]
  ]
]
