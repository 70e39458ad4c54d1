-- ===== src/Reporter/Uuid.antt =====
-- The identifiers that the reporter makes are of the form that it accepts.
use mathlib.Core.Path.{subst}
use caddy_storage_redis.Prelude.{
  ℕ, zero, suc, ◌/◌, ◌<◌, Bytes, [], ◌∷◌, ◌++◌, true, false, ◌≡◌, ap, refl, sym, ◌∙◌, All, length,
  take, drop, arith, ◌==◌,
}
use caddy_storage_redis.Go.Hex.{hex_digit, encode_to_string}
use caddy_storage_redis.Health.{every, is_hex, lower_hex}
use caddy_storage_redis.Reporter.Handed.{encode_to_string-every}
use caddy_storage_redis.Reporter.Identifier.{
  byte_at, without_dashes, with_version, with_variant, stamp, slice, grouped, certificate_uuid,
  is_variant, valid_certificate_uuid,
}

every-append :
    (s t : Bytes) → every is_hex s ≡ true → every is_hex t ≡ true → every is_hex (s ++ t) ≡ true
unfolding every
every-append [] t p q = q
every-append (c ∷ s) t p q = ground (arith, every-append s t)

every-take : (n : ℕ) (s : Bytes) → every is_hex s ≡ true → every is_hex (take n s) ≡ true
unfolding every
every-take zero s p = refl
every-take (suc n) [] p = refl
every-take (suc n) (c ∷ s) p = ground (arith, every-take n s)

every-drop : (n : ℕ) (s : Bytes) → every is_hex s ≡ true → every is_hex (drop n s) ≡ true
unfolding every
every-drop zero s p = p
every-drop (suc n) [] p = refl
every-drop (suc n) (c ∷ s) p = every-drop n s (ground arith)

without_dashes-append :
    (s t : Bytes) → every is_hex s ≡ true → without_dashes (s ++ t) ≡ s ++ without_dashes t
unfolding every without_dashes
without_dashes-append [] t p = refl
without_dashes-append (c ∷ s) t p =
    let other : (c == b'-') ≡ false = ground arith in
    rw other (ap (◌∷◌ c) (without_dashes-append s t (ground arith)))

without_dashes_self : (s : Bytes) → every is_hex s ≡ true → without_dashes s ≡ s
unfolding every without_dashes
without_dashes_self [] p = refl
without_dashes_self (c ∷ s) p =
    let other : (c == b'-') ≡ false = ground arith in
    rw other (ap (◌∷◌ c) (without_dashes_self s (ground arith)))

-- The groups without the dashes.
abbrev joined_groups : Bytes → Bytes
joined_groups h = take 8 h ++ (slice 8 4 h ++ (slice 12 4 h ++ (slice 16 4 h ++ drop 20 h)))

without_dashes-grouped :
    (h : Bytes) → every is_hex h ≡ true → without_dashes (grouped h) ≡ joined_groups h
unfolding without_dashes
without_dashes-grouped h p =
    let at = λ (n : ℕ). every-take 4 (drop n h) (every-drop n h p) in
    without_dashes-append (take 8 h) _ (every-take 8 h p)
    ∙ ap (λ t. take 8 h ++ t)
        (without_dashes-append (slice 8 4 h) _ (at 8)
          ∙ ap (λ t. slice 8 4 h ++ t)
              (without_dashes-append (slice 12 4 h) _ (at 12)
                ∙ ap (λ t. slice 12 4 h ++ t)
                    (without_dashes-append (slice 16 4 h) _ (at 16)
                      ∙ ap (λ t. slice 16 4 h ++ t)
                          (without_dashes_self (drop 20 h) (every-drop 20 h p)))))

joined_groups-every : (h : Bytes) → every is_hex h ≡ true → every is_hex (joined_groups h) ≡ true
joined_groups-every h p =
    let at = λ (n : ℕ). every-take 4 (drop n h) (every-drop n h p) in
    every-append (take 8 h) _ (every-take 8 h p) (
      every-append (slice 8 4 h) _ (at 8) (
        every-append (slice 12 4 h) _ (at 12)
          (every-append (slice 16 4 h) _ (at 16) (every-drop 20 h p))))

zero_suc : (n : ℕ) → 0 ≡ suc n → ⊥
zero_suc n e = omega (arith, e)

uncons :
    (n : ℕ) (b : Bytes) → length b ≡ suc n → (c : ℕ) × (r : Bytes) × (b ≡ c ∷ r) × (length r ≡ n)
uncons n [] e = elim (zero_suc n e) [ ]
uncons n (c ∷ r) e = (c, r, refl, omega (arith, e))

version : (b : ℕ) → hex_digit (with_version b / 16) ≡ b'4'
version b = ground arith

variant : (b : ℕ) → is_variant (hex_digit (with_variant b / 16)) ≡ true
variant b = ground arith

lower_of : (s t : Bytes) → s ≡ t → length t ≡ 32 → every is_hex t ≡ true → lower_hex s 32 ≡ true
unfolding lower_hex
lower_of s t same size hex = rw (same, size, hex) refl

valid_of :
    (s : Bytes)
    → length s ≡ 36
    → byte_at 8 s ≡ b'-'
    → byte_at 13 s ≡ b'-'
    → byte_at 18 s ≡ b'-'
    → byte_at 23 s ≡ b'-'
    → byte_at 14 s ≡ b'4'
    → is_variant (byte_at 19 s) ≡ true
    → lower_hex (without_dashes s) 32 ≡ true
    → valid_certificate_uuid s ≡ true
unfolding valid_certificate_uuid
valid_of s size a b c d four mark hex = rw (size, a, b, c, d, four, mark, hex) refl

-- The identifier of bytes at hand: its length and its dashes are computed.
shaped :
    (b0 b1 b2 b3 b4 b5 b6 b7 b8 b9 b10 b11 b12 b13 b14 b15 : ℕ)
    → All
        (λ c. c < 256)
        (b0 ∷ b1 ∷ b2 ∷ b3 ∷ b4 ∷ b5 ∷ b6 ∷ b7 ∷ b8 ∷ b9 ∷ b10 ∷ b11 ∷ b12 ∷ b13 ∷ b14 ∷ b15 ∷ [])
    → valid_certificate_uuid (
        certificate_uuid (
          b0 ∷ b1 ∷ b2 ∷ b3 ∷ b4 ∷ b5 ∷ b6 ∷ b7 ∷ b8 ∷ b9 ∷ b10 ∷ b11 ∷ b12 ∷ b13 ∷ b14 ∷ b15 ∷ []))
      ≡ true
unfolding certificate_uuid stamp encode_to_string
shaped b0 b1 b2 b3 b4 b5 b6 b7 b8 b9 b10 b11 b12 b13 b14 b15 a =
    let b : Bytes =
      b0 ∷ b1 ∷ b2 ∷ b3 ∷ b4 ∷ b5 ∷ b6 ∷ b7 ∷ b8 ∷ b9 ∷ b10 ∷ b11 ∷ b12 ∷ b13 ∷ b14 ∷ b15 ∷ [] in
    let h = encode_to_string (stamp b) in
    let hex = encode_to_string-every (stamp b) (
      a.0,
      (
        a.1.0,
        (
          a.1.1.0,
          (
            a.1.1.1.0,
            (
              a.1.1.1.1.0,
              (
                a.1.1.1.1.1.0,
                (omega arith, (a.1.1.1.1.1.1.1.0, (omega arith, a.1.1.1.1.1.1.1.1.1))),
              ),
            ),
          ),
        ),
      ),
    ) in
    let plain = without_dashes-grouped h hex in
    valid_of (grouped h) refl refl refl refl refl (version b6) (variant b8) (
      lower_of (without_dashes (grouped h)) (joined_groups h) plain refl
        (joined_groups-every h hex))

empty : (b : Bytes) → length b ≡ 0 → b ≡ []
empty [] e = refl
empty (c ∷ r) e = elim (zero_suc (length r) (sym e)) [ ]

-- Sixteen random bytes make an identifier that `validCertificateUUID` accepts.
pub valid_certificate_uuid-certificate_uuid :
    (b : Bytes)
    → length b ≡ 16
    → All (λ c. c < 256) b
    → valid_certificate_uuid (certificate_uuid b) ≡ true
valid_certificate_uuid-certificate_uuid b e a =
    let (b0, r0, e0, s0) = uncons 15 b e in
    let (b1, r1, e1, s1) = uncons 14 r0 s0 in
    let (b2, r2, e2, s2) = uncons 13 r1 s1 in
    let (b3, r3, e3, s3) = uncons 12 r2 s2 in
    let (b4, r4, e4, s4) = uncons 11 r3 s3 in
    let (b5, r5, e5, s5) = uncons 10 r4 s4 in
    let (b6, r6, e6, s6) = uncons 9 r5 s5 in
    let (b7, r7, e7, s7) = uncons 8 r6 s6 in
    let (b8, r8, e8, s8) = uncons 7 r7 s7 in
    let (b9, r9, e9, s9) = uncons 6 r8 s8 in
    let (b10, r10, e10, s10) = uncons 5 r9 s9 in
    let (b11, r11, e11, s11) = uncons 4 r10 s10 in
    let (b12, r12, e12, s12) = uncons 3 r11 s11 in
    let (b13, r13, e13, s13) = uncons 2 r12 s12 in
    let (b14, r14, e14, s14) = uncons 1 r13 s13 in
    let (b15, r15, e15, s15) = uncons 0 r14 s14 in
    let whole : b
        ≡ b0 ∷ b1 ∷ b2 ∷ b3 ∷ b4 ∷ b5 ∷ b6 ∷ b7 ∷ b8 ∷ b9 ∷ b10 ∷ b11 ∷ b12 ∷ b13 ∷ b14 ∷ b15 ∷ [] =
      e0
      ∙ ap (◌∷◌ b0) (
          e1
          ∙ ap (◌∷◌ b1) (
              e2
              ∙ ap (◌∷◌ b2) (
                  e3
                  ∙ ap (◌∷◌ b3) (
                      e4
                      ∙ ap (◌∷◌ b4) (
                          e5
                          ∙ ap (◌∷◌ b5) (
                              e6
                              ∙ ap (◌∷◌ b6) (
                                  e7
                                  ∙ ap (◌∷◌ b7) (
                                      e8
                                      ∙ ap (◌∷◌ b8) (
                                          e9
                                          ∙ ap (◌∷◌ b9) (
                                              e10
                                              ∙ ap (◌∷◌ b10) (
                                                  e11
                                                  ∙ ap (◌∷◌ b11) (
                                                      e12
                                                      ∙ ap (◌∷◌ b12) (
                                                          e13
                                                          ∙ ap (◌∷◌ b13) (
                                                            e14
                                                            ∙ ap (◌∷◌ b14) (
                                                            e15
                                                            ∙ ap (◌∷◌ b15)
                                                            (empty r15 s15)))))))))))))))) in
    rw whole (
      shaped b0 b1 b2 b3 b4 b5 b6 b7 b8 b9 b10 b11 b12 b13 b14 b15
        (subst (All (λ c. c < 256)) whole a))
