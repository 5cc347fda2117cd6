-- ===== src/Documents/Quality/Report/Issues.antt =====
-- The issues of a report: each once, and one for every field that is missing.
use agentic_learning_platfor.Base.{
  String, Text, same_text, same_text_sym, same_text_refl, ◌≡◌, inl, inr, refl, Bool, true, false,
  ◌||◌, List, [], ◌∷◌, ◌++◌, any, All, All-map, arith, Bool-cases,
}
use agentic_learning_platfor.Documents.Quality.Report.{
  Issue, add_issue, add_missing, missing_code, missing_issue, Advice, advise, Measures, too_short,
  missing_fields, thin_evidence, weak_project, advice_of,
}

abbrev pub has_code : Text → List Issue → Bool
has_code code issues = any (λ (old : Issue). same_text old.code code) issues

-- No two issues have the same code.
abbrev pub Distinct : List Issue → Type 0
Distinct [] = Unit
Distinct (i ∷ issues) = (has_code i.code issues ≡ false) × Distinct issues

has_code-snoc :
    (code : Text) (new : Issue) (issues : List Issue)
    → has_code code (issues ++ new ∷ []) ≡ (has_code code issues || same_text new.code code)
has_code-snoc code new [] = ground arith
has_code-snoc code new (i ∷ issues) = ground (arith, has_code-snoc code new issues)

Distinct-snoc :
    (new : Issue) (issues : List Issue)
    → has_code new.code issues ≡ false
    → Distinct issues
    → Distinct (issues ++ new ∷ [])
Distinct-snoc new [] h d = (refl, tt)
Distinct-snoc new (i ∷ issues) h (fresh, d) = (
  ground (arith, has_code-snoc i.code new issues, same_text_sym i.code new.code),
  Distinct-snoc new issues (ground arith) d,
)

-- What advice keeps to: distinct codes, and the codes that are there already.
abbrev Keeps : List Issue → List Issue → Type 0
Keeps before after =
    Distinct after × ((code : Text) → has_code code before ≡ true → has_code code after ≡ true)

add_issue-Keeps :
    (new : Issue) (issues : List Issue) → Distinct issues → Keeps issues (add_issue issues new)
unfolding add_issue
add_issue-Keeps new issues d = elim (Bool-cases (has_code new.code issues)) [
  | inl e ↦ rw e (d, λ code h. h)
  | inr e ↦
      rw e (Distinct-snoc new issues e d, λ code h. ground (arith, has_code-snoc code new issues))
]

add_issue-has :
    (new : Issue) (issues : List Issue) → has_code new.code (add_issue issues new) ≡ true
unfolding add_issue
add_issue-has new issues = elim (Bool-cases (has_code new.code issues)) [
  | inl e ↦ rw e e
  | inr e ↦ rw e (ground (arith, has_code-snoc new.code new issues, same_text_refl new.code))
]

advise-Keeps :
    (wanted : Bool) (new : Issue) (suggestion : String) (a : Advice)
    → Distinct a.issues
    → Keeps a.issues (advise wanted new suggestion a).issues
unfolding advise
advise-Keeps true new suggestion a d = add_issue-Keeps new a.issues d
advise-Keeps false new suggestion a d = (d, λ code h. h)

Keeps-trans : (a b c : List Issue) → Keeps a b → Keeps b c → Keeps a c
Keeps-trans a b c (d, f) (e, g) = (e, λ code h. g code (f code h))

add_missing-Keeps :
    (fields : List String) (issues : List Issue)
    → Distinct issues
    → Keeps issues (add_missing fields issues)
unfolding add_missing
add_missing-Keeps [] issues d = (d, λ code h. h)
add_missing-Keeps (field ∷ fields) issues d =
    let first = add_issue-Keeps (missing_issue field) issues d in
    Keeps-trans issues (add_issue issues (missing_issue field)) _ first
      (add_missing-Keeps fields _ first.0)

add_missing-All :
    (fields : List String) (issues : List Issue)
    → Distinct issues
    → All (λ field. has_code (missing_code field) (add_missing fields issues) ≡ true) fields
unfolding add_missing
add_missing-All [] issues d = tt
add_missing-All (field ∷ fields) issues d =
    let first = add_issue-Keeps (missing_issue field) issues d in
    (
      (add_missing-Keeps fields _ first.0).1 (missing_code field)
          (add_issue-has (missing_issue field) issues),
      add_missing-All fields _ first.0,
    )

-- A stage of the advice.
abbrev Grows : Advice → Advice → Type 0
Grows a b = Keeps a.issues b.issues

two_rules-Grows :
    (v w : Bool) (i j : Issue) (s t : String) (a : Advice)
    → Distinct a.issues
    → Grows a (advise v i s (advise w j t a))
two_rules-Grows v w i j s t a d =
    let first = advise-Keeps w j t a d in
    Keeps-trans a.issues (advise w j t a).issues _ first
      (advise-Keeps v i s (advise w j t a) first.0)

missing_fields-Grows :
    (m : Measures) (a : Advice) → Distinct a.issues → Grows a (missing_fields m a)
unfolding missing_fields
missing_fields-Grows m a d = add_missing-Keeps m.missing_required a.issues d

thin_evidence-Grows : (m : Measures) (a : Advice) → Distinct a.issues → Grows a (thin_evidence m a)
thin_evidence-Grows m a d = two_rules-Grows _ _ _ _ _ _ a d

weak_project-Grows : (m : Measures) (a : Advice) → Distinct a.issues → Grows a (weak_project m a)
weak_project-Grows m a d =
    let first = two_rules-Grows _ _ _ _ _ _ a d in
    Keeps-trans a.issues _ (weak_project m a).issues first (advise-Keeps _ _ _ _ first.0)

too_short-Grows : (m : Measures) (a : Advice) → Distinct a.issues → Grows a (too_short m a)
too_short-Grows m a d = two_rules-Grows _ _ _ _ _ _ a d

-- The codes of the advice, and an issue for every field that is missing.
abbrev pub Complete : Measures → Advice → Type 0
Complete m a =
    Distinct a.issues
    × All (λ field. has_code (missing_code field) a.issues ≡ true) m.missing_required

rules-Complete :
    (m : Measures) (a : Advice)
    → Distinct a.issues
    → Complete m (weak_project m (thin_evidence m (missing_fields m (too_short m a))))
unfolding missing_fields
rules-Complete m a d =
    let before = too_short m a in
    let s1 = too_short-Grows m a d in
    let s2 = missing_fields-Grows m before s1.0 in
    let s3 = thin_evidence-Grows m (missing_fields m before) s2.0 in
    let s4 = weak_project-Grows m (thin_evidence m (missing_fields m before)) s3.0 in
    (
      s4.0,
      All-map
          (λ field.
            has_code (missing_code field) (add_missing m.missing_required before.issues) ≡ true)
          (λ field.
            has_code (missing_code field)
              (weak_project m (thin_evidence m (missing_fields m before))).issues
            ≡ true)
          (λ field h. s4.1 (missing_code field) (s3.1 (missing_code field) h)) m.missing_required
          (add_missing-All m.missing_required before.issues s1.0),
    )

pub advice_of-Complete : (m : Measures) → Complete m (advice_of m)
unfolding advice_of
advice_of-Complete m = rules-Complete m (record { issues = []; suggestions = [] }) tt
