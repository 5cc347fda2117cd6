-- ===== src/Tests/DocumentRuns.antt =====
-- The checks of a document's quality on concrete inputs.
use agentic_learning_platfor.Base.{
  codes, ◌≡◌, refl, none, some, [], ◌∷◌, strip, lstrip, rstrip, contains, starts_with, get,
}
use agentic_learning_platfor.Documents.Quality.{
  Patterns, normalize_document_type, known_code, field_presence_score, rounded, quality_level,
  normalize_text,
}
use agentic_learning_platfor.Documents.Quality.Report.{Report, kind_of, assess_document_quality}
use agentic_learning_platfor.Documents.Quality.Report.Laws.{
  IsReport, assess_document_quality-IsReport,
}
use agentic_learning_platfor.Tests.{ascii}

abbrev no_matches : Patterns
no_matches = record {
  headings = λ text. 0;
  parts = λ text. text ∷ [];
  metrics = λ text. 0;
  first_heading = λ text. none;
}

type_of_names :
    (normalize_document_type ascii (codes " Offer ") ≡ "offer_result")
    × (normalize_document_type ascii (codes "Interview-Notes") ≡ "interview_notes")
    × (normalize_document_type ascii (codes "diary") ≡ "unknown")
unfolding normalize_document_type known_code strip lstrip rstrip
type_of_names = (refl, refl, refl)

score_of_field : field_presence_score ascii (codes "we use redis and PYTHON") "skills" ≡ 2
unfolding field_presence_score contains starts_with get
score_of_field = refl

-- 89.5 is rounded up to the even 90, and 88.5 down to 88.
rounds_to_even : (rounded 21480 ≡ 90) × (rounded 21240 ≡ 88) × (quality_level 90 ≡ "excellent")
unfolding rounded quality_level
rounds_to_even = (refl, refl, refl)

assess_document_quality-IsReport_example :
    (r : Report) × (assess_document_quality ascii no_matches (codes "Go") none none none ≡ some r)
    × IsReport ascii
        (normalize_text ascii (codes "Go"))
        (kind_of ascii no_matches (normalize_text ascii (codes "Go")) none none)
        r
assess_document_quality-IsReport_example =
    assess_document_quality-IsReport ascii no_matches (codes "Go") none none none
