-- ===== src/Compression/Laws.antt =====
-- Decompression gives back what was compressed, up to the limit, and nothing beyond it.
use caddy_storage_redis.Prelude.{
  ℕ, ◌+◌, ◌≤◌, ◌<◌, Bytes, none, if◌then◌else◌, ◌≡◌, refl, arith, length, take, zero, suc, equal,
  [], ◌∷◌, Bool-cases, inl, inr,
}
use caddy_storage_redis.Exec.{ok, err}
use caddy_storage_redis.Platform.{Reply, reply, fail}
use caddy_storage_redis.Config.{
  compression_zlib, storage_compression_flate, storage_compression_zlib,
}
use caddy_storage_redis.Compression.{
  Codec, ReadOut, max_decompressed_bytes, compress, written, decompress, decompress_reader,
  too_long,
}

-- compress/flate and compress/zlib as documented.
pub record IsLossless (C : Codec) : Type 0 where
  pub inflate-deflate : (x y : Bytes) → C.deflate x ≡ reply y → C.inflate y ≡ (x, none)
  pub zlib_reader-zlib : (x y : Bytes) → C.zlib x ≡ reply y → C.zlib_reader y ≡ reply (x, none)

length-take_le : (n : ℕ) (xs : Bytes) → n ≤ length xs → length (take n xs) ≡ n
length-take_le zero xs h = refl
length-take_le (suc n) [] h = absurd (omega arith)
length-take_le (suc n) (x ∷ xs) h = omega (arith, length-take_le n xs)

-- The flag that `Store` puts beside a value compressed in this mode.
abbrev pub flag_of : Bytes → ℕ
flag_of mode =
    if equal mode compression_zlib then storage_compression_zlib else storage_compression_flate

-- Whatever a reader yields, what is returned is within the limit.
pub decompress_reader-le_max :
    (reader : ReadOut) (out : Bytes)
    → decompress_reader reader ≡ ok out
    → length out ≤ max_decompressed_bytes
unfolding decompress_reader
decompress_reader-le_max (b, e) out h = ground arith

decompress_reader-whole :
    (x : Bytes) → length x ≤ max_decompressed_bytes → decompress_reader (x, none) ≡ ok x
unfolding decompress_reader
decompress_reader-whole x h = ground arith

decompress_reader-too_long :
    (x : Bytes) → max_decompressed_bytes < length x → decompress_reader (x, none) ≡ err too_long
unfolding decompress_reader
decompress_reader-too_long x h =
    ground (arith, length-take_le (max_decompressed_bytes + 1) x (omega arith))

written-ok : (r : Reply Bytes) (y : Bytes) → written r ≡ ok y → r ≡ reply y
unfolding written
written-ok (reply x) y h = cc
written-ok (fail e) y h = cc

-- What the reader that the flag names yields, where the mode's writer gave `y`.
module _ (C : Codec) (Z : IsLossless C) (mode x y : Bytes) where
  -- A value within the limit comes back, with the algorithm that its flag names.
  pub decompress-compress :
      length x ≤ max_decompressed_bytes
      → compress C mode x ≡ ok y
      → decompress C y (flag_of mode) ≡ ok x
  unfolding compress decompress
  decompress-compress h e = elim (Bool-cases (equal mode compression_zlib)) [
    | inl z ↦
        rw (z, Z.zlib_reader-zlib x y (written-ok (C.zlib x) y (rw z at e)))
          (decompress_reader-whole x h)
    | inr f ↦
        rw (f, Z.inflate-deflate x y (written-ok (C.deflate x) y (rw f at e)))
          (decompress_reader-whole x h)
  ]

  -- A longer value was compressed, and can never be read.
  pub decompress-too_long :
      max_decompressed_bytes < length x
      → compress C mode x ≡ ok y
      → decompress C y (flag_of mode) ≡ err too_long
  unfolding compress decompress
  decompress-too_long h e = elim (Bool-cases (equal mode compression_zlib)) [
    | inl z ↦
        rw (z, Z.zlib_reader-zlib x y (written-ok (C.zlib x) y (rw z at e)))
          (decompress_reader-too_long x h)
    | inr f ↦
        rw (f, Z.inflate-deflate x y (written-ok (C.deflate x) y (rw f at e)))
          (decompress_reader-too_long x h)
  ]
