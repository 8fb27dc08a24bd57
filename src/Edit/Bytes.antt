-- ===== src/Edit/Bytes.antt =====
-- `createSubcorpus`: two int64 in little endian.
use mquery.Base.{
  ℕ, zero, suc, ◌+◌, ◌*◌, ◌/◌, ◌%◌, ◌<◌, ◌≡◌, refl, List, [], ◌∷◌, ◌++◌, arith, length, take, drop,
}
use mquery.Base.Word.{word_mod}

-- binary.LittleEndian.PutUint64 and AppendUint64, for that many bytes.
unfoldable pub put_uint : ℕ → ℕ → List ℕ
put_uint zero v = []
put_uint (suc k) v = v % 256 ∷ put_uint k (v / 256)

-- The content of the file.
unfoldable pub subcorpus_bytes : ℕ → ℕ → List ℕ
unfolding put_uint
subcorpus_bytes from_idx to_idx = put_uint 8 from_idx ++ put_uint 8 to_idx

-- How a reader takes the number back.
unfoldable pub read_uint : List ℕ → ℕ
read_uint [] = 0
read_uint (b ∷ bs) = b + 256 * read_uint bs

pow256 : ℕ → ℕ
pow256 zero = 1
pow256 (suc k) = 256 * pow256 k

read-put_uint : (k v : ℕ) → v < pow256 k → read_uint (put_uint k v) ≡ v
unfolding put_uint read_uint pow256
read-put_uint zero v h = omega arith
read-put_uint (suc k) v h = omega (arith, read-put_uint k (v / 256) (omega arith))

pow256_eight : pow256 8 ≡ word_mod
unfolding pow256
pow256_eight = refl

-- The file has sixteen bytes, and its halves read back as the two positions.
pub subcorpus_bytes_lem :
    (from_idx to_idx : ℕ)
    → from_idx < word_mod
    → to_idx < word_mod
    → (length (subcorpus_bytes from_idx to_idx) ≡ 16)
      × (read_uint (take 8 (subcorpus_bytes from_idx to_idx)) ≡ from_idx)
      × (read_uint (drop 8 (subcorpus_bytes from_idx to_idx)) ≡ to_idx)
unfolding subcorpus_bytes
subcorpus_bytes_lem f t hf ht =
    (refl, read-put_uint 8 f (rw pow256_eight hf), read-put_uint 8 t (rw pow256_eight ht))
