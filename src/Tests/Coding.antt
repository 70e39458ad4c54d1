-- ===== src/Tests/Coding.antt =====
-- Runs of the parts that values pass through, and of the retry.
use caddy_storage_redis.Prelude.{
  ◌≤◌, Bytes, [], ◌∷◌, true, none, ◌≡◌, refl, codes, arith, equal, length,
}
use caddy_storage_redis.Go.Errors.{Error, new_error, errorf}
use caddy_storage_redis.Go.Strings.{has_substring}
use caddy_storage_redis.Exec.{ok, err}
use caddy_storage_redis.Config.{compression_flate}
use caddy_storage_redis.Crypto.{decrypt, decrypt_with_key, not_authentic}
use caddy_storage_redis.Crypto.Laws.{decrypt-rotated, here, decrypt-AllFail}
use caddy_storage_redis.Compression.{
  compress, decompress, decompress_reader, max_decompressed_bytes,
}
use caddy_storage_redis.Compression.Laws.{flag_of, decompress_reader-le_max, decompress-compress}
use caddy_storage_redis.Reconnect.{is_client_closed_err}
use caddy_storage_redis.Reconnect.Laws.{is_client_closed_err-errorf}
use caddy_storage_redis.Tests.Caddy.{
  cipher, cipher-IsAuthenticated, squeeze, squeeze-IsLossless, long_value,
}

abbrev sealed_text : Bytes
sealed_text = 0 ∷ 0 ∷ 1 ∷ codes "text"

abbrev failed_tag : Error
failed_tag = new_error (codes "cipher: message authentication failed")

decrypt-rotated_example :
    decrypt cipher (codes "newer") (codes "k" ∷ []) sealed_text ≡ ok (codes "text")
unfolding decrypt_with_key
decrypt-rotated_example =
    decrypt-rotated cipher cipher-IsAuthenticated (codes "k") (codes "newer") (codes "text")
      sealed_text (codes "k" ∷ [])
      (record { nonce = 0 ∷ 0 ∷ []; usable = refl; size = refl; text = refl }) (failed_tag, refl)
      (here [])

decrypt-AllFail_example :
    decrypt cipher (codes "newer") (codes "older" ∷ []) sealed_text ≡ err (not_authentic failed_tag)
unfolding decrypt_with_key
decrypt-AllFail_example =
    decrypt-AllFail cipher (codes "newer") sealed_text (codes "older" ∷ [])
      (not_authentic failed_tag) refl ((not_authentic failed_tag, refl), tt)

decompress_reader-le_max_example : length (codes "abc") ≤ max_decompressed_bytes
unfolding decompress_reader max_decompressed_bytes
decompress_reader-le_max_example = decompress_reader-le_max (codes "abc", none) (codes "abc") refl

decompress-compress_example :
    decompress squeeze (0 ∷ []) (flag_of compression_flate) ≡ ok long_value
unfolding compress equal max_decompressed_bytes
decompress-compress_example =
    decompress-compress squeeze squeeze-IsLossless compression_flate long_value (0 ∷ [])
      (omega arith) refl

is_client_closed_err-errorf_example :
    is_client_closed_err
      (errorf (codes "Unable to set value for a") (new_error (codes "redis: client is closed")))
    ≡ true
unfolding is_client_closed_err has_substring
is_client_closed_err-errorf_example =
    is_client_closed_err-errorf (codes "Unable to set value for a")
      (new_error (codes "redis: client is closed")) refl
