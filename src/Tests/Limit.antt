-- ===== src/Tests/Limit.antt =====
-- A value beyond the limit of decompression, stored by a codec that changes nothing.
use caddy_storage_redis.Prelude.{
  ◌+◌, ◌<◌, Bytes, none, ◌≡◌, refl, codes, arith, equal, length, sym, ap,
}
use caddy_storage_redis.Go.Strconv.{pos}
use caddy_storage_redis.Exec.{err}
use caddy_storage_redis.Platform.{reply}
use caddy_storage_redis.Config.{Config, StorageData, new, compression_flate}
use caddy_storage_redis.Compression.{Codec, compress, max_decompressed_bytes, too_long}
use caddy_storage_redis.Compression.Laws.{IsLossless}
use caddy_storage_redis.Storage.{Coding, decode, decrypt_value, for_key}
use caddy_storage_redis.Storage.RoundTrip.{decode-too_long}
use caddy_storage_redis.Tests.Memory.{memory, zeros}
use caddy_storage_redis.Tests.Caddy.{cipher, plain_json, zeros-fill}

abbrev same_bytes : Codec
same_bytes = record {
  deflate = λ x. reply x;
  zlib = λ x. reply x;
  inflate = λ x. (x, none);
  zlib_reader = λ x. reply (x, none);
}

replied : {a b : Bytes} → reply a ≡ reply b → a ≡ b
replied h = ground arith

same_bytes-IsLossless : IsLossless same_bytes
same_bytes-IsLossless = record {
  inflate-deflate = λ x y e. ap (λ z. (z, none)) (sym (replied e));
  zlib_reader-zlib = λ x y e. ap (λ z. reply (z, none)) (sym (replied e));
}

abbrev unpacked : Coding
unpacked = record { aead = cipher; codec = same_bytes; json = plain_json }

-- One byte more than the limit.
unfoldable huge : Bytes
huge = zeros (max_decompressed_bytes + 1)

huge-long : max_decompressed_bytes < length huge
unfolding huge
huge-long = omega (arith, zeros-fill (max_decompressed_bytes + 1))

abbrev flate : Config
flate = record new { compression = compression_flate }

abbrev huge_data : StorageData
huge_data = record {
  value = huge;
  modified = 0;
  size = pos (length huge);
  compression = pos 1;
  encryption = pos 0;
}

decode-too_long_example :
    decode memory unpacked flate (codes "big") huge_data
    ≡ err (for_key "Unable to decompress value" (codes "big") too_long)
unfolding compress decrypt_value equal
decode-too_long_example =
    decode-too_long memory unpacked flate flate (codes "big") huge huge huge_data
      same_bytes-IsLossless huge-long refl refl refl
