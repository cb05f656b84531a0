-- ===== src/Reader/Get.antt =====
-- `fce_reader_get` of src/api/fce_reader_api.c, through the codecs.
use fast_cache_engine.Builder.{buffer}
use fast_cache_engine.Bytes.Words.{Bytes, IsByte}
use fast_cache_engine.Codec.{codec_copy, fce_codec_encode}
use fast_cache_engine.Codec.RoundTrip.{Plentiful, fce_codec_decode-fce_codec_encode}
use fast_cache_engine.Common.{All, Bool, Bool-cases, List, ap, arith, inl, inr, length}
use fast_cache_engine.Common.{refl, sym, true, ℕ, ◌<◌, ◌^◌, ◌∙◌, ◌≡◌, ◌≢◌, ◌≤◌}
use fast_cache_engine.Log.Index.{FitsLog}
use fast_cache_engine.Reader.{
  FceReader, GetEnv, canonical_key, fce_reader_get, fce_reader_get_canonical,
}
use fast_cache_engine.Reader.{plain, returned_value}
use fast_cache_engine.Reader.Frozen.{FitsCache, FrozenAs, FrozenAs-AnswersLatest}
use fast_cache_engine.Record.{BuildRecord}
use fast_cache_engine.Record.Answers.{AnswersLatest}
use fast_cache_engine.Record.Latest.{All-In, IsLatest}
use fast_cache_engine.Record.Numbered.{Numbered, Numbered-unique}
use fast_cache_engine.Schema.{backend_direct_table}
use fast_cache_engine.Status.{Result, ok}

-- Two records that are both the last of their key are the same.
latest_unique :
    (records : List BuildRecord) (r s : BuildRecord)
    → Numbered records 0
    → IsLatest r records
    → IsLatest s records
    → r.key ≡ s.key
    → r ≡ s
latest_unique records r s num p q e =
    let le1 = All-In (λ x. x.key ≡ r.key → x.order ≤ r.order) records p.1 q.0 (sym e) in
    let le2 = All-In (λ x. x.key ≡ s.key → x.order ≤ s.order) records q.1 p.0 e in
    Numbered-unique records r s 0 num p.0 q.0 (omega arith)

answer_of_latest :
    (records : List BuildRecord) (r : BuildRecord) (answer : Result Bytes)
    → Numbered records 0
    → IsLatest r records
    → AnswersLatest records r.key answer
    → answer ≡ ok r.value
answer_of_latest records r answer num p (inl (s, q, e, v)) =
    v ∙ ap (λ x. ok x.value) (latest_unique records s r num q p e)
answer_of_latest records r answer num p (inr (none_has, v)) =
    absurd (All-In (λ x. x.key ≢ r.key) records none_has p.0 refl)

copied :
    (malloc : ℕ → Bool) (codec : ℕ) (value stored : Bytes)
    → plain codec ≡ true
    → fce_codec_encode malloc codec value ≡ ok stored
    → value ≡ stored
unfolding fce_codec_encode codec_copy
copied malloc codec value stored p h = ground arith

canonical_key-encoded :
    (e : GetEnv) (r : FceReader) (key stored : Bytes)
    → fce_codec_encode e.key_malloc r.schema.key_codec key ≡ ok stored
    → canonical_key e r key ≡ ok stored
unfolding canonical_key
canonical_key-encoded e r key stored h = elim (Bool-cases (plain r.schema.key_codec)) [
  | inl p ↦ rw p (ap ok (copied e.key_malloc r.schema.key_codec key stored p h))
  | inr p ↦ rw p h
]

returned_value-encoded :
    (malloc : ℕ → Bool) (r : FceReader) (value stored : Bytes)
    → Plentiful malloc
    → All IsByte value
    → length value < 2 ^ 33
    → fce_codec_encode malloc r.schema.value_codec value ≡ ok stored
    → returned_value malloc true r stored ≡ ok value
unfolding returned_value
returned_value-encoded malloc r value stored enough bytes short h =
    let back =
      fce_codec_decode-fce_codec_encode malloc enough value bytes r.schema.value_codec stored short
        h in
    elim (Bool-cases (plain r.schema.value_codec)) [
      | inl p ↦ rw p (ap ok (sym (copied malloc r.schema.value_codec value stored p h)))
      | inr p ↦ rw (p, back) refl
    ]

-- What was put is found: a reader of the files of a sorted, direct or log cache, frozen from records
-- that are numbered by their places and fit the cache, gets for a key exactly the bytes that were
-- put with it last. The last record of the key holds the encodings of the key and of the value by the
-- codecs of the schema; the stored key has eight bytes in a direct table; the value is
-- shorter than 8 GiB, and allocations of less than 64 GiB succeed.
pub fce_reader_get-put :
    (e : GetEnv) (r : FceReader) (records : List BuildRecord) (p : BuildRecord) (key value : Bytes)
    → FitsCache records
    → Numbered records 0
    → FrozenAs records r
    → IsLatest p records
    → (r.schema.backend ≡ backend_direct_table → length p.key ≡ 8)
    → fce_codec_encode e.key_malloc r.schema.key_codec key ≡ ok p.key
    → fce_codec_encode e.value_malloc r.schema.value_codec value ≡ ok p.value
    → All IsByte value
    → length value < 2 ^ 33
    → Plentiful e.value_malloc
    → e.copy ≡ true
    → fce_reader_get e r (buffer key) ≡ ok value
unfolding fce_reader_get
fce_reader_get-put e r records p key value fits num frozen last eight ek ev bytes short enough
      room =
    let p_fits : FitsLog p = All-In FitsLog records fits.0 last.0 in
    let key_bytes : All IsByte p.key = p_fits.0 in
    let found =
      answer_of_latest records p (fce_reader_get_canonical r p.key) num last
        (FrozenAs-AnswersLatest records r p.key fits num key_bytes eight frozen) in
    rw (canonical_key-encoded e r key p.key ek, found, room)
      (returned_value-encoded e.value_malloc r value p.value enough bytes short ev)
