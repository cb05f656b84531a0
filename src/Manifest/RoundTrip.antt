-- ===== src/Manifest/RoundTrip.antt =====
-- A manifest that is written is read back, and the schema with it (src/core/fce_manifest.c).
use fast_cache_engine.Common.{[], ap, arith, refl, some, suc, true, zero, ℕ, ◌%◌, ◌*◌, ◌+◌}
use fast_cache_engine.Common.{◌/◌, ◌<◌, ◌==◌, ◌^◌, ◌∙◌, ◌∷◌, ◌≡◌, ◌≤◌}
use fast_cache_engine.Common.Bits.{bit_and-pow, bit_or-pow}
use fast_cache_engine.Hash.{fnv1a64-lt}
use fast_cache_engine.Layout.{AllFit, fetch-store_end}
use fast_cache_engine.Manifest.{FceManifestInfo, bit_set, check_manifest, fce_endian_tag}
use fast_cache_engine.Manifest.{fce_magic, make_manifest, manifest_bytes, manifest_fields}
use fast_cache_engine.Manifest.{
  manifest_layout, manifest_of_fields, or_if, pack_flags, read_manifest, read_manifest_file,
}
use fast_cache_engine.Manifest.{schema_from_manifest}
use fast_cache_engine.Schema.{FceSchema, fce_schema_hash, schema_bytes, validate_schema}
use fast_cache_engine.Status.{>>=-eq-ok, ok}
use native.Mathlib.Nat.{one-le-pow}

-- Every field has a value that its C type can hold.
pub record IsSchema (s : FceSchema) : Type 0 where
  pub words : AllFit (4 ∷ 4 ∷ 4 ∷ 4 ∷ 4 ∷ 4 ∷ 4 ∷ 4 ∷ 4 ∷ 4 ∷ 4 ∷ []) (
      s.schema_version ∷ s.algorithm_version ∷ s.backend ∷ s.lookup ∷ s.key_kind ∷ s.value_kind
      ∷ s.key_codec ∷ s.value_codec ∷ s.fixed_key_size ∷ s.fixed_value_size
      ∷ s.direct_table_key_bits ∷ [])
  pub user_flags_word : s.user_flags < 2 ^ 32
  pub exact_key_check_flag : s.exact_key_check ≤ 1
  pub mmap_read_flag : s.mmap_read ≤ 1
  pub read_only_flag : s.read_only_after_freeze ≤ 1
  pub duplicate_flag : s.allow_duplicate_put ≤ 1

abbrev pub FitsManifest : FceManifestInfo → Type 0
FitsManifest m = AllFit manifest_layout (manifest_fields m)

-- The four flags beside the user flags, as a sum.
or_if-sum :
    (k flag meta : ℕ) → flag ≤ 1 → meta < 2 ^ k → or_if flag (2 ^ k) meta ≡ meta + flag * 2 ^ k
or_if-sum k zero meta p q = omega arith
or_if-sum k (suc zero) meta p q = bit_or-pow k meta q ∙ omega arith
or_if-sum k (suc (suc f)) meta p q = absurd (omega arith)

pack_flags-sum :
    (s : FceSchema)
    → IsSchema s
    → pack_flags s
      ≡ s.user_flags
        + s.exact_key_check * 2 ^ 32
        + s.mmap_read * 2 ^ 33
        + s.read_only_after_freeze * 2 ^ 34
        + s.allow_duplicate_put * 2 ^ 35
unfolding pack_flags
pack_flags-sum s h =
    let a : ℕ = or_if s.exact_key_check (2 ^ 32) s.user_flags in
    let ea : a ≡ s.user_flags + s.exact_key_check * 2 ^ 32 =
      or_if-sum 32 s.exact_key_check s.user_flags h.exact_key_check_flag h.user_flags_word in
    let b : ℕ = or_if s.mmap_read (2 ^ 33) a in
    let eb : b ≡ a + s.mmap_read * 2 ^ 33 =
      or_if-sum 33 s.mmap_read a h.mmap_read_flag
        (omega (arith, ea, h.user_flags_word, h.exact_key_check_flag)) in
    let c : ℕ = or_if s.read_only_after_freeze (2 ^ 34) b in
    let ec : c ≡ b + s.read_only_after_freeze * 2 ^ 34 =
      or_if-sum 34 s.read_only_after_freeze b h.read_only_flag
        (omega (arith, ea, eb, h.user_flags_word, h.exact_key_check_flag, h.mmap_read_flag)) in
    or_if-sum 35 s.allow_duplicate_put c h.duplicate_flag (
      omega (
        arith, ea, eb, ec, h.user_flags_word, h.exact_key_check_flag, h.mmap_read_flag,
        h.read_only_flag,
      ))
    ∙ omega (arith, ea, eb, ec)

bit_set-digit : (k meta flag : ℕ) → flag ≤ 1 → meta / 2 ^ k % 2 ≡ flag → bit_set meta (2 ^ k) ≡ flag
bit_set-digit k meta zero p q = rw (bit_and-pow k meta, q) (ground arith)
bit_set-digit k meta (suc zero) p q = rw (bit_and-pow k meta, q) (ground (arith, one-le-pow k 2))
bit_set-digit k meta (suc (suc f)) p q = absurd (omega arith)

-- The schema that a reader takes from a manifest is the schema that the manifest was made of.
pub schema_from_manifest-make_manifest :
    (now : ℕ) (s : FceSchema) (records : ℕ)
    → IsSchema s
    → schema_from_manifest (make_manifest now s records) ≡ s
unfolding schema_from_manifest make_manifest
schema_from_manifest-make_manifest now s records h =
    let meta : ℕ = pack_flags s in
    let e = pack_flags-sum s h in
    let user : meta % 2 ^ 32 ≡ s.user_flags = omega (arith, e, h.user_flags_word) in
    let exact =
      bit_set-digit 32 meta s.exact_key_check h.exact_key_check_flag
        (omega (arith, e, h.user_flags_word, h.exact_key_check_flag)) in
    let mmap =
      bit_set-digit 33 meta s.mmap_read h.mmap_read_flag
        (omega (arith, e, h.user_flags_word, h.exact_key_check_flag, h.mmap_read_flag)) in
    let read_only =
      bit_set-digit 34 meta s.read_only_after_freeze h.read_only_flag (omega (arith, e)) in
    let duplicate =
      bit_set-digit 35 meta s.allow_duplicate_put h.duplicate_flag (omega (arith, e)) in
    λ i. record s {
      user_flags = user i;
      exact_key_check = exact i;
      mmap_read = mmap i;
      read_only_after_freeze = read_only i;
      allow_duplicate_put = duplicate i;
    }

-- The fields are taken from where they were put.
manifest_of_fields-manifest_fields :
    (m : FceManifestInfo) → manifest_of_fields (manifest_fields m) ≡ m
unfolding manifest_of_fields
manifest_of_fields-manifest_fields m = refl

-- A manifest file reads as the manifest that was written, if that passes the checks.
pub read_manifest_file-manifest_bytes :
    (m : FceManifestInfo)
    → FitsManifest m
    → read_manifest_file (some (manifest_bytes m)) ≡ check_manifest m
unfolding read_manifest_file manifest_bytes
read_manifest_file-manifest_bytes m h =
    rw (fetch-store_end manifest_layout (manifest_fields m) h, read_manifest_file)
      (ap check_manifest (manifest_of_fields-manifest_fields m))

pub check_manifest-make_manifest :
    (now : ℕ) (s : FceSchema) (records : ℕ)
    → IsSchema s
    → s.schema_version ≡ 1
    → s.algorithm_version ≡ 1
    → validate_schema s ≡ ok tt
    → check_manifest (make_manifest now s records) ≡ ok (make_manifest now s records)
unfolding check_manifest
check_manifest-make_manifest now s records h v1 v2 valid =
    rw (schema_from_manifest-make_manifest now s records h, valid)
      (unfold make_manifest in ground (arith, v1, v2))

-- The manifest of a schema fits the struct.
pub make_manifest-Fits :
    (now : ℕ) (s : FceSchema) (records : ℕ)
    → IsSchema s
    → now < 2 ^ 64
    → records < 2 ^ 64
    → FitsManifest (make_manifest now s records)
unfolding make_manifest fce_schema_hash
make_manifest-Fits now s records h a b =
    let w1 = h.words.1 in
    let w2 = w1.1 in
    let w3 = w2.1 in
    let w4 = w3.1 in
    let w5 = w4.1 in
    let w6 = w5.1 in
    let w7 = w6.1 in
    let w8 = w7.1 in
    let w9 = w8.1 in
    let w10 = w9.1 in
    let hash = fnv1a64-lt (schema_bytes s) 0xfeedfacecafebeef (omega arith) in
    let flags : pack_flags s < 2 ^ 64 = omega (
      arith,
      pack_flags-sum s h,
      h.user_flags_word,
      h.exact_key_check_flag,
      h.mmap_read_flag,
      h.read_only_flag,
      h.duplicate_flag,
    ) in
    (
      refl,
      (
        refl,
        (
          h.words.0,
          (
            w1.0,
            (
              w2.0,
              (
                w3.0,
                (
                  w4.0,
                  (
                    w5.0,
                    (
                      w6.0,
                      (
                        w7.0,
                        (
                          refl,
                          (
                            omega arith,
                            (
                              refl,
                              (
                                refl,
                                (
                                  refl,
                                  (
                                    refl,
                                    (
                                      omega arith,
                                      (
                                        omega (arith, hash),
                                        (
                                          refl,
                                          (
                                            refl,
                                            (
                                              refl,
                                              (
                                                refl,
                                                (
                                                  refl,
                                                  (
                                                    refl,
                                                    (
                                                      omega (arith, flags),
                                                      (w8.0, (w9.0, (w10.0, (refl, tt)))),
                                                    ),
                                                  ),
                                                ),
                                              ),
                                            ),
                                          ),
                                        ),
                                      ),
                                    ),
                                  ),
                                ),
                              ),
                            ),
                          ),
                        ),
                      ),
                    ),
                  ),
                ),
              ),
            ),
          ),
        ),
      ),
    )

-- A valid schema of version 1 whose fields fit their C types, with flags that are 0 or 1, survives the
-- manifest file: if the time and the number of records are 64-bit words, what a reader opens has
-- the manifest that the builder wrote, and the builder's schema.
pub read_manifest-make_manifest :
    (now : ℕ) (s : FceSchema) (records : ℕ)
    → IsSchema s
    → now < 2 ^ 64
    → records < 2 ^ 64
    → s.schema_version ≡ 1
    → s.algorithm_version ≡ 1
    → validate_schema s ≡ ok tt
    → let m = make_manifest now s records in
      (read_manifest true (some (manifest_bytes m)) ≡ ok m) × (schema_from_manifest m ≡ s)
unfolding read_manifest
read_manifest-make_manifest now s records h a b v1 v2 valid = (
  read_manifest_file-manifest_bytes (make_manifest now s records)
        (make_manifest-Fits now s records h a b)
      ∙ check_manifest-make_manifest now s records h v1 v2 valid,
  schema_from_manifest-make_manifest now s records h,
)

-- The tests that a manifest has passed.
pub passed :
    (m : FceManifestInfo) {n : FceManifestInfo}
    → check_manifest m ≡ ok n
    → ((m.magic == fce_magic) ≡ true)
      × ((m.endian_tag == fce_endian_tag) ≡ true)
      × ((m.manifest_version == 1) ≡ true)
      × ((m.schema_version == 1) ≡ true)
      × ((m.algorithm_version == 1) ≡ true)
      × (validate_schema (schema_from_manifest m) ≡ ok tt)
unfolding check_manifest
passed m {n} h =
    let (u, valid, same) =
      >>=-eq-ok (validate_schema (schema_from_manifest m)) (λ _. ok m) {b = n} (ground arith) in
    (ground arith, ground arith, ground arith, ground arith, ground arith, valid)
