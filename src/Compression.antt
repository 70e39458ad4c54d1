-- ===== src/Compression.antt =====
-- compression.go: the two algorithms, and the limit on what is decompressed.
pub mod Laws
use caddy_storage_redis.Prelude.{
  ℕ, ◌+◌, ◌*◌, ◌^◌, Bytes, Option, none, some, Bool, true, false, if◌then◌else◌, codes, ltb, not,
  ◌&&◌, length, take, equal, ◌==◌,
}
use caddy_storage_redis.Go.Errors.{Error, new_error}
use caddy_storage_redis.Exec.{Result, ok, err}
use caddy_storage_redis.Platform.{Reply, reply, fail}
use caddy_storage_redis.Config.{compression_zlib, storage_compression_zlib}

-- What a reader of the codec gives: the bytes before its end or its error, and the error, with
-- whether it is returned together with the last of the bytes.
abbrev pub ReadOut : Type 0
ReadOut = Bytes × Option (Error × Bool)

-- compress/flate and compress/zlib: all that a writer writes until it is closed, and all that a
-- reader yields until its end or its error.
pub record Codec : Type 0 where
  pub deflate : Bytes → Reply Bytes
  pub zlib : Bytes → Reply Bytes
  pub inflate : Bytes → ReadOut
  -- `zlib.NewReader` reads the header, and may refuse it
  pub zlib_reader : Bytes → Reply ReadOut

-- 4 << 20
unfoldable pub max_decompressed_bytes : ℕ
max_decompressed_bytes = 4 * 2 ^ 20

written : Reply Bytes → Result Bytes
written (reply out) = ok out
written (fail e) = err e

-- `compress`
unfoldable pub compress : Codec → Bytes → Bytes → Result Bytes
unfolding written
compress C mode input =
    if equal mode compression_zlib then written (C.zlib input) else written (C.deflate input)

-- The end of what is read, with the error that is met there. At the limit an error is met only if it
-- comes together with the last byte.
at_end : Bool → Bytes → Option (Error × Bool) → Result Bytes
at_end is_full out none = ok out
at_end is_full out (some (x, with_last)) = if is_full && not with_last then ok out else err x

-- `io.ReadAll` of an `io.LimitReader`
read_limited : ℕ → ReadOut → Result Bytes
unfolding at_end
read_limited limit (out, e) =
    if ltb limit (length out) then ok (take limit out) else at_end (length out == limit) out e

pub too_long : Error
too_long = new_error (codes "decompressed value exceeds limit (4194304 bytes)")

within_limit : Result Bytes → Result Bytes
unfolding too_long
within_limit (ok output) =
    if ltb max_decompressed_bytes (length output) then err too_long else ok output
within_limit r = r

-- `decompressReader`
unfoldable pub decompress_reader : ReadOut → Result Bytes
unfolding read_limited within_limit
decompress_reader reader = within_limit (read_limited (max_decompressed_bytes + 1) reader)

zlib_decompress : Reply ReadOut → Result Bytes
zlib_decompress (reply reader) = decompress_reader reader
zlib_decompress (fail e) = err e

-- `decompress`
unfoldable pub decompress : Codec → Bytes → ℕ → Result Bytes
unfolding zlib_decompress
decompress C input flag =
    if flag == storage_compression_zlib
    then zlib_decompress (C.zlib_reader input)
    else decompress_reader (C.inflate input)
