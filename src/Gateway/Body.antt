-- ===== src/Gateway/Body.antt =====
-- The response body of GetObject: `bytes_stream` (src/s3/mod.rs). A stream is the list of the items
-- it yields until its end.
use hdfs_s3_gateway.Prelude.{
  ℕ, zero, suc, ◌-◌, ◌≡◌, refl, sym, ap, ap₂, ◌∙◌, inl, inr, Bool, true, false, Bool-cases, Bytes,
  ltb, leb, if◌then◌else◌, List, [], ◌∷◌, ◌++◌, length, take, length-append, length-take, take_all,
  arith,
}

-- `Result<Bytes, std::io::Error>`, an item of the client's range stream; of an error, its text.
pub data Chunk : Type 0 where
  read : Bytes → Chunk
  failure : Bytes → Chunk

-- `Result<Bytes, GetBodyError>`
pub data BodyItem : Type 0 where
  bytes : Bytes → BodyItem
  upstream : Bytes → BodyItem
  short_read : ℕ → ℕ → BodyItem

-- `bytes.truncate(remaining)`, when there are more
unfoldable pub truncate : Bytes → ℕ → Bytes
truncate b remaining = if ltb remaining (length b) then take remaining b else b

-- The stream that `bytes_stream` unfolds, for a limit and what remains of it.
unfoldable pub unfold_body : List Chunk → ℕ → ℕ → List BodyItem
unfolding truncate
unfold_body [] limit zero = []
unfold_body [] limit (suc remaining) = short_read limit (limit - suc remaining) ∷ []
unfold_body (c ∷ stream) limit zero = []
unfold_body (read b ∷ stream) limit (suc remaining) =
    bytes (truncate b (suc remaining))
    ∷ unfold_body stream limit (suc remaining - length (truncate b (suc remaining)))
unfold_body (failure e ∷ stream) limit (suc remaining) =
    upstream e ∷ unfold_body stream limit (suc remaining)

-- `bytes_stream`
unfoldable pub bytes_stream : List Chunk → ℕ → List BodyItem
unfolding unfold_body
bytes_stream stream content_length = unfold_body stream content_length content_length

-- The bytes that are delivered, up to the first error, and whether there is none.
abbrev pub delivered : List BodyItem → Bytes
delivered [] = []
delivered (bytes b ∷ items) = b ++ delivered items
delivered (upstream e ∷ items) = []
delivered (short_read x g ∷ items) = []

abbrev pub is_clean : List BodyItem → Bool
is_clean [] = true
is_clean (bytes b ∷ items) = is_clean items
is_clean (upstream e ∷ items) = false
is_clean (short_read x g ∷ items) = false

-- The bytes that the client read, up to its first failure.
abbrev pub contents : List Chunk → Bytes
contents [] = []
contents (read b ∷ stream) = b ++ contents stream
contents (failure e ∷ stream) = []

less : (n : ℕ) → n - 0 ≡ n
less n = omega arith

less_suc : (n k : ℕ) → suc n - suc k ≡ n - k
less_suc n k = omega arith

less_zero : (k : ℕ) → 0 - k ≡ 0
less_zero k = omega arith

take_append : (n : ℕ) (a b : Bytes) → take n (a ++ b) ≡ take n a ++ take (n - length a) b
take_append zero a b = ap (λ m. take m b) (sym (less_zero (length a)))
take_append (suc n) [] b = ap (λ m. take m b) (sym (less (suc n)))
take_append (suc n) (x ∷ a) b =
    ap (◌∷◌ x) (take_append n a b)
    ∙ ap (λ m. x ∷ (take n a ++ take m b)) (sym (less_suc n (length a)))

truncate-take : (b : Bytes) (n : ℕ) → truncate b n ≡ take n b
unfolding truncate
truncate-take b n = elim (Bool-cases (ltb n (length b))) [
  | inl h ↦ ground (arith, h)
  | inr h ↦ ap (λ t. if t then take n b else b) h ∙ sym (take_all n b (ground (arith, h)))
]

rest_of : (b : Bytes) (n : ℕ) → n - length (truncate b n) ≡ n - length b
rest_of b n = ap (λ t. n - length t) (truncate-take b n) ∙ omega (arith, length-take n b)

nothing : (stream : List Chunk) (limit : ℕ) → unfold_body stream limit 0 ≡ []
unfolding unfold_body
nothing [] limit = refl
nothing (c ∷ stream) limit = refl

unfolded :
    (stream : List Chunk) (limit n : ℕ)
    → (delivered (unfold_body stream limit n) ≡ take n (contents stream))
      × (is_clean (unfold_body stream limit n) ≡ leb n (length (contents stream)))
unfolding unfold_body
unfolded stream limit zero = ground (arith, nothing stream limit)
unfolded [] limit (suc n) = (refl, ground arith)
unfolded (failure e ∷ stream) limit (suc n) = (refl, ground arith)
unfolded (read b ∷ stream) limit (suc n) =
    let ih = unfolded stream limit (suc n - length (truncate b (suc n))) in
    (
      ap₂ ◌++◌ (truncate-take b (suc n))
            (ih.0 ∙ ap (λ m. take m (contents stream)) (rest_of b (suc n)))
          ∙ sym (take_append (suc n) b (contents stream)),
      ih.1 ∙ ground (arith, rest_of b (suc n), length-append b (contents stream)),
    )

-- What arrives before the first error is the first `content_length` bytes that the client read
-- before failing, and there is no error exactly when it read that many.
pub bytes_stream_lem :
    (stream : List Chunk) (content_length : ℕ)
    → (delivered (bytes_stream stream content_length) ≡ take content_length (contents stream))
      × (is_clean (bytes_stream stream content_length)
          ≡ leb content_length (length (contents stream)))
unfolding bytes_stream
bytes_stream_lem stream content_length = unfolded stream content_length content_length
