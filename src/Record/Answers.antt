-- ===== src/Record/Answers.antt =====
-- What a lookup in a cache may answer, in terms of the records that the cache was made of.
use fast_cache_engine.Bytes.Words.{Bytes}
use fast_cache_engine.Common.{All, All-mono, In, List, inl, inr, ◌∙◌, ◌≡◌, ◌≢◌, ◌⊎◌}
use fast_cache_engine.Record.{BuildRecord}
use fast_cache_engine.Record.Latest.{All-In, HasKey, IsDeduped, IsLatest}
use fast_cache_engine.Status.{Result, err, not_found, ok}

-- The answer for a key is the value of a record with the key, or that there is none.
abbrev pub Answers : List BuildRecord → Bytes → Result Bytes → Type 0
Answers records key r =
    ((s : BuildRecord) × In s records × (s.key ≡ key) × (r ≡ ok s.value))
    ⊎ (All (λ s. s.key ≢ key) records × (r ≡ err not_found))

-- The answer for a key is the value of the last put with the key, or that there was none.
abbrev pub AnswersLatest : List BuildRecord → Bytes → Result Bytes → Type 0
AnswersLatest records key r =
    ((s : BuildRecord) × IsLatest s records × (s.key ≡ key) × (r ≡ ok s.value))
    ⊎ (All (λ s. s.key ≢ key) records × (r ≡ err not_found))

-- An answer about the deduplicated records is one about the latest of all.
pub Answers→AnswersLatest :
    (records out : List BuildRecord) (key : Bytes) (r : Result Bytes)
    → IsDeduped records out
    → Answers out key r
    → AnswersLatest records key r
Answers→AnswersLatest records out key r deduped (inl (s, m, p, q)) =
    inl (s, All-In (λ x. IsLatest x records) out deduped.latest m, p, q)
Answers→AnswersLatest records out key r deduped (inr (none_has, q)) = inr (
  All-mono (λ x. HasKey x.key out) (λ x. x.key ≢ key) records
      (λ x has e. All-In (λ y. y.key ≢ key) out none_has has.1 (has.2 ∙ e)) deduped.complete,
  q,
)
