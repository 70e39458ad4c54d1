-- ===== src/Tests/Caddy.antt =====
-- A configuration, a machine and keys to run the program on.
use mathlib.Core.Path.{subst}
use caddy_storage_redis.Prelude.{
  ℕ, Bytes, List, [], ◌∷◌, true, false, Option, none, some, ◌≡◌, refl, codes, length, arith, equal,
  ◌==◌, equal_iff, Bool-cases, inl, inr, if◌then◌else◌, sym, ap, ◌∙◌, contains, zero, suc, Bool,
}
use caddy_storage_redis.Go.Strings.{has_byte}
use caddy_storage_redis.Go.Strconv.{ℤ, pos, negsuc}
use caddy_storage_redis.Go.Errors.{Error, new_error}
use caddy_storage_redis.Go.FilePath.{path_of, join}
use caddy_storage_redis.Go.FilePath.Segments.{IsPath}
use caddy_storage_redis.Platform.{Reply, reply, fail}
use caddy_storage_redis.Platform.Redis.{Empty}
use caddy_storage_redis.Config.{Config, StorageData, new, compression_flate}
use caddy_storage_redis.Client.{Machine, RedisStorage}
use caddy_storage_redis.Crypto.{Aead}
use caddy_storage_redis.Crypto.Laws.{IsAuthenticated}
use caddy_storage_redis.Compression.{Codec}
use caddy_storage_redis.Compression.Laws.{IsLossless}
use caddy_storage_redis.Directory.{prefix_key}
use caddy_storage_redis.Directory.Index.{folder}
use caddy_storage_redis.Storage.{Json, Coding}
use caddy_storage_redis.Storage.RoundTrip.{ReadsBack}
use caddy_storage_redis.Storage.Sound.{IsSound}
use caddy_storage_redis.Storage.Loaded.{IsFaithful}
use caddy_storage_redis.Tests.Memory.{memory, contents, zeros}

abbrev opened_with : Bytes → Bytes → Reply Bytes
opened_with key [] = fail (new_error (codes "cipher: message authentication failed"))
opened_with key (tag ∷ text) =
    if tag == length key
    then reply text
    else fail (new_error (codes "cipher: message authentication failed"))

-- The length of the key stands before the text.
abbrev pub cipher : Aead
cipher = record {
  new_cipher = λ key. none;
  new_gcm = λ key. none;
  nonce_size = 2;
  overhead = 1;
  seal = λ key nonce text. length key ∷ text;
  unseal = λ key nonce text. opened_with key text;
}

pub cipher-IsAuthenticated : IsAuthenticated cipher
cipher-IsAuthenticated = record {
  unseal-seal = λ k n p. ground arith;
  length-seal = λ k n p. omega arith;
}

abbrev pub long_value : Bytes
long_value = codes "aaaaaaaaaaaaaaaa"

abbrev squeezed : Bytes → Bytes
squeezed x = if equal x long_value then 0 ∷ [] else 1 ∷ x

abbrev stretched : Bytes → Bytes × Option (Error × Bool)
stretched [] = ([], some (new_error (codes "unexpected EOF"), false))
stretched (c ∷ x) = if c == 0 then (long_value, none) else (x, none)

-- One long value is squeezed into one byte.
abbrev pub squeeze : Codec
squeeze = record {
  deflate = λ x. reply (squeezed x);
  zlib = λ x. reply (squeezed x);
  inflate = stretched;
  zlib_reader = λ x. reply (stretched x);
}

stretched-squeezed : (x y : Bytes) → squeezed x ≡ y → stretched y ≡ (x, none)
stretched-squeezed x y e = elim (Bool-cases (equal x long_value)) [
  | inl same ↦
      subst (λ z. stretched z ≡ (x, none)) (rw same at e)
        (ap (λ z. (z, none)) (sym ((equal_iff x long_value).0 same)))
  | inr other ↦ subst (λ z. stretched z ≡ (x, none)) (rw other at e) refl
]

replied : {a b : Bytes} → reply a ≡ reply b → a ≡ b
replied h = ground arith

pub squeeze-IsLossless : IsLossless squeeze
squeeze-IsLossless = record {
  inflate-deflate = λ x y e. stretched-squeezed x y (replied e);
  zlib_reader-zlib = λ x y e. ap reply (stretched-squeezed x y (replied e));
}

-- An integer as two numbers.
abbrev sign : ℤ → ℕ
sign (pos n) = 0
sign (negsuc n) = 1

abbrev size_of : ℤ → ℕ
size_of (pos n) = n
size_of (negsuc n) = n

abbrev integer : ℕ → ℕ → ℤ
integer s n = if s == 0 then pos n else negsuc n

integer-sign : (z : ℤ) → integer (sign z) (size_of z) ≡ z
integer-sign (pos n) = refl
integer-sign (negsuc n) = refl

abbrev listed : StorageData → Bytes
listed sd =
    sd.modified
    ∷ sign sd.size
    ∷ size_of sd.size
    ∷ sign sd.compression
    ∷ size_of sd.compression
    ∷ sign sd.encryption
    ∷ size_of sd.encryption
    ∷ sd.value

abbrev unlisted : Bytes → Reply StorageData
unlisted (t ∷ a ∷ n ∷ b ∷ c ∷ d ∷ e ∷ v) = reply (record {
  value = v;
  modified = t;
  size = integer a n;
  compression = integer b c;
  encryption = integer d e;
})
unlisted _ = fail (new_error (codes "unexpected end of JSON input"))

-- The numbers before the value.
abbrev pub plain_json : Json
plain_json = record { marshal = λ sd. reply (listed sd); unmarshal = unlisted }

plain_json-ReadsBack : ReadsBack plain_json
plain_json-ReadsBack sd b e = ap unlisted (sym (replied e)) ∙ λ i. reply (record {
  value = sd.value;
  modified = sd.modified;
  size = integer-sign sd.size i;
  compression = integer-sign sd.compression i;
  encryption = integer-sign sd.encryption i;
})

abbrev pub coding : Coding
coding = record { aead = cipher; codec = squeeze; json = plain_json }

pub zeros-fill : (n : ℕ) → length (zeros n) ≡ n
zeros-fill zero = refl
zeros-fill (suc n) = omega (arith, zeros-fill n)

pub coding-IsFaithful : IsFaithful memory coding
coding-IsFaithful = record {
  fills = λ n b w u e. sym (ap (λ z. length z) (replied (ap (λ p. p.0) e))) ∙ zeros-fill n;
  authenticated = cipher-IsAuthenticated;
  lossless = squeeze-IsLossless;
  reads_back = plain_json-ReadsBack;
}

abbrev pub secret : Config
secret = record new { encryption_key = codes "k"; compression = compression_flate }

-- The key has been rotated: the old one is left for reading.
abbrev pub after_rotation : Config
after_rotation = record secret { encryption_key = codes "newer"; decryption_keys = codes "k" ∷ [] }

abbrev pub start : Machine memory
start = record { world = record { strings = λ k. none; sets = λ k. [] }; reconnect_count = 0 }

-- A storage whose client is closed.
abbrev pub closed_storage : RedisStorage memory
closed_storage = record { client = false; config = secret }

abbrev pub reader_storage : RedisStorage memory
reader_storage = record { client = true; config = after_rotation }

-- "caddy/acme/site"
abbrev pub site : Bytes
site = codes "site"

abbrev pub above_site : List Bytes
above_site = codes "acme" ∷ codes "caddy" ∷ []

pub site-IsPath : IsPath (site ∷ above_site)
unfolding equal has_byte
site-IsPath = (
  record { ne_empty = refl; no_slash = refl; ne_dot = refl; ne_dot_dot = refl },
  (
    record { ne_empty = refl; no_slash = refl; ne_dot = refl; ne_dot_dot = refl },
    (record { ne_empty = refl; no_slash = refl; ne_dot = refl; ne_dot_dot = refl }, tt),
  ),
)

abbrev pub acme_site : Bytes
acme_site = codes "acme/site"

pub acme_site-place : prefix_key secret acme_site ≡ path_of (site ∷ above_site)
unfolding prefix_key join path_of
acme_site-place = refl

pub start-Empty : (k : Bytes) → Empty memory contents start.world k
unfolding contains
start-Empty k m = refl

pub start-IsSound : IsSound memory contents start.world
unfolding contains
start-IsSound = record {
  linked = record { up = λ b a rest m hp e. cc (start-Empty (path_of (b ∷ a ∷ rest)) m, e) };
  no_dangling = record {
    filled = λ b a rest hp e emptied. cc (start-Empty (path_of (a ∷ rest)) (folder b), e);
  };
  values = λ b a rest hp own e. absurd (e refl);
  listed = λ b a rest hp e missing. cc (start-Empty (path_of (a ∷ rest)) b, e);
  names = λ a m rest hp e. cc (start-Empty (path_of (a ∷ rest)) m, e);
}
