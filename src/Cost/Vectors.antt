-- ===== src/Cost/Vectors.antt =====
-- backend/app/upstage.py: `pack_embedding_vectors` and `unpack_embedding_vectors`. A single is the number
-- of its 32 bits, and a byte is a number below 256; the rounding of a float to a single is an argument.
use esafe.Prelude.{
  ℕ, zero, suc, Bool, true, ◌&&◌, not, List, [], ◌∷◌, ◌++◌, map, ◌+◌, ◌*◌, ◌/◌, ◌%◌, leb, ◌==◌,
  length, Outcome, ok, ◌>>◌, raise_if,
}
use esafe.Cost.Price.{embedding_dimension, max_embedding_batch_items}

pub data CacheError : Type 0 where
  cache_invalid : CacheError

-- The four bytes of a single, the least first.
unfoldable pub word_bytes : ℕ → List ℕ
word_bytes w = w % 256 ∷ w / 256 % 256 ∷ w / 65536 % 256 ∷ w / 16777216 % 256 ∷ []

unfoldable pub to_bytes : List ℕ → List ℕ
to_bytes [] = []
to_bytes (w ∷ ws) = word_bytes w ++ to_bytes ws

unfoldable pub flatten : List (List ℕ) → List ℕ
flatten [] = []
flatten (v ∷ vs) = v ++ flatten vs

-- `pack_embedding_vectors`
unfoldable pub pack_embedding_vectors {ℓ} :
    {Float : Type ℓ} → (Float → ℕ) → List (List Float) → List ℕ
pack_embedding_vectors single vectors = to_bytes (flatten (map (map single) vectors))

-- `values.frombytes(payload)`; the length of the payload is a multiple of four.
unfoldable pub from_bytes : List ℕ → List ℕ
from_bytes (a ∷ b ∷ c ∷ d ∷ rest) = (a + b * 256 + c * 65536 + d * 16777216) ∷ from_bytes rest
from_bytes _ = []

-- `math.isfinite` of a single: its exponent is not all ones.
unfoldable pub is_finite : ℕ → Bool
is_finite w = not (w / 8388608 % 256 == 255)

unfoldable pub all_finite : List ℕ → Bool
all_finite [] = true
all_finite (w ∷ ws) = is_finite w && all_finite ws

unfoldable pub take : ℕ → List ℕ → List ℕ
take zero xs = []
take (suc n) [] = []
take (suc n) (x ∷ xs) = x ∷ take n xs

unfoldable pub drop : ℕ → List ℕ → List ℕ
drop zero xs = xs
drop (suc n) [] = []
drop (suc n) (x ∷ xs) = drop n xs

-- The slices of that many offsets, `dimension` apart.
unfoldable pub slices : ℕ → ℕ → List ℕ → List (List ℕ)
slices zero dimension values = []
slices (suc n) dimension values = take dimension values ∷ slices n dimension (drop dimension values)

-- `unpack_embedding_vectors`
unfoldable pub unpack_embedding_vectors : List ℕ → ℕ → ℕ → Outcome CacheError (List (List ℕ))
unpack_embedding_vectors payload item_count dimension = do
  raise_if (not (dimension == embedding_dimension)) cache_invalid
  raise_if (not (leb 1 item_count && leb item_count max_embedding_batch_items)) cache_invalid
  raise_if (not (length payload == item_count * dimension * 4)) cache_invalid
  let values = from_bytes payload
  raise_if (not (all_finite values)) cache_invalid
  ok (slices item_count dimension values)
