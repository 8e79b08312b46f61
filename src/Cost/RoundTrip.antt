-- ===== src/Cost/RoundTrip.antt =====
-- backend/app/upstage.py: cached vectors are read as they were stored.
use esafe.Prelude.{
  ℕ, suc, true, ◌≡◌, ◌≤◌, ◌<◌, refl, ap, ◌∙◌, List, [], ◌∷◌, ◌++◌, map, arith, ◌+◌, ◌*◌, ◌/◌, ◌%◌,
  length, All, All-append, All-map, ok,
}
use esafe.Cost.Vectors.{
  word_bytes, to_bytes, flatten, pack_embedding_vectors, from_bytes, is_finite, all_finite, take,
  drop, slices, unpack_embedding_vectors,
}

word_lem :
    (w : ℕ)
    → w < 4294967296
    → w % 256 + w / 256 % 256 * 256 + w / 65536 % 256 * 65536 + w / 16777216 % 256 * 16777216 ≡ w
word_lem w h = omega arith

from_bytes-to_bytes : (ws : List ℕ) → All (λ w. w < 4294967296) ws → from_bytes (to_bytes ws) ≡ ws
unfolding from_bytes to_bytes word_bytes
from_bytes-to_bytes [] h = refl
from_bytes-to_bytes (w ∷ ws) h = rw (word_lem w h.0, from_bytes-to_bytes ws h.1) refl

length-to_bytes : (ws : List ℕ) → length (to_bytes ws) ≡ length ws * 4
unfolding to_bytes word_bytes
length-to_bytes [] = refl
length-to_bytes (w ∷ ws) = omega (arith, length-to_bytes ws)

length-append : (xs ys : List ℕ) → length (xs ++ ys) ≡ length xs + length ys
length-append [] ys = omega arith
length-append (x ∷ xs) ys = omega (arith, length-append xs ys)

take-append : (xs ys : List ℕ) → take (length xs) (xs ++ ys) ≡ xs
unfolding take
take-append [] ys = refl
take-append (x ∷ xs) ys = ap (λ zs. x ∷ zs) (take-append xs ys)

drop-append : (xs ys : List ℕ) → drop (length xs) (xs ++ ys) ≡ ys
unfolding drop
drop-append [] ys = refl
drop-append (x ∷ xs) ys = drop-append xs ys

length-flatten :
    (d : ℕ) (vs : List (List ℕ)) → All (λ v. length v ≡ d) vs → length (flatten vs) ≡ length vs * d
unfolding flatten
length-flatten d [] h = omega arith
length-flatten d (v ∷ vs) h =
    rw (length-append v (flatten vs), h.0, length-flatten d vs h.1) (grind arith)

slices-flatten :
    (d : ℕ) (vs : List (List ℕ))
    → All (λ v. length v ≡ d) vs
    → slices (length vs) d (flatten vs) ≡ vs
unfolding slices flatten
slices-flatten d [] h = refl
slices-flatten d (v ∷ vs) h =
    let first : take d (v ++ flatten vs) ≡ v = rw h.0 at (take-append v (flatten vs)) in
    let rest : drop d (v ++ flatten vs) ≡ flatten vs = rw h.0 at (drop-append v (flatten vs)) in
    rw (first, rest, slices-flatten d vs h.1) refl

-- A vector of singles that a cache can hold: 32 bits each, finite, 1024 of them.
abbrev pub IsVector : List ℕ → Type 0
IsVector v = (length v ≡ 1024) × (All (λ w. (w < 4294967296) × (is_finite w ≡ true)) v)

flatten-All :
    (vs : List (List ℕ))
    → All IsVector vs
    → All (λ w. (w < 4294967296) × (is_finite w ≡ true)) (flatten vs)
unfolding flatten
flatten-All [] h = tt
flatten-All (v ∷ vs) h =
    All-append (λ w. (w < 4294967296) × (is_finite w ≡ true)) v (flatten vs) h.0.1
      (flatten-All vs h.1)

finite_rows :
    (ws : List ℕ) → All (λ w. (w < 4294967296) × (is_finite w ≡ true)) ws → all_finite ws ≡ true
unfolding all_finite
finite_rows [] h = refl
finite_rows (w ∷ ws) h = rw (h.0.1, finite_rows ws h.1) refl

unpack_singles :
    (vs : List (List ℕ))
    → 1 ≤ length vs
    → length vs ≤ 100
    → All IsVector vs
    → unpack_embedding_vectors (to_bytes (flatten vs)) (length vs) 1024 ≡ ok vs
unfolding unpack_embedding_vectors
unpack_singles vs some_vector few h =
    let long = All-map IsVector (λ v. length v ≡ 1024) vs (λ v k. k.0) h in
    let words = flatten-All vs h in
    let small =
      All-map (λ w. (w < 4294967296) × (is_finite w ≡ true)) (λ w. w < 4294967296) (flatten vs)
        (λ w k. k.0) words in
    let size : length (to_bytes (flatten vs)) ≡ length vs * 1024 * 4 =
      length-to_bytes (flatten vs) ∙ ap (λ n. n * 4) (length-flatten 1024 vs long) in
    rw
      (
        from_bytes-to_bytes (flatten vs) small,
        finite_rows (flatten vs) words,
        slices-flatten 1024 vs long,
        size,
      )
      (ground arith)

length-map {ℓ κ} :
    {A : Type ℓ} {B : Type κ} (f : A → B) (xs : List A) → length (map f xs) ≡ length xs
length-map f [] = refl
length-map f (x ∷ xs) = ap suc (length-map f xs)

-- What is stored for a batch is read back as the same vectors, each value rounded to a single, whatever
-- bits the rounding gives, if they are finite: for 1 to 100 vectors of 1024 values.
pub unpack-pack {ℓ} :
    {Float : Type ℓ} (single : Float → ℕ) (vectors : List (List Float))
    → 1 ≤ length vectors
    → length vectors ≤ 100
    → All IsVector (map (map single) vectors)
    → unpack_embedding_vectors (pack_embedding_vectors single vectors) (length vectors) 1024
      ≡ ok (map (map single) vectors)
unfolding pack_embedding_vectors
unpack-pack single vectors some_vector few h =
    let vs = map (map single) vectors in
    let same : length vs ≡ length vectors = length-map (map single) vectors in
    rw same at (unpack_singles vs (rw same some_vector) (rw same few) h)
