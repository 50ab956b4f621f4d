-- ===== src/Jwt/Tests.antt =====
-- Tokens on a library that knows two of them, and on a store of keys.
use native.Mathlib.Decide.{ℕ_discrete}
use xlgo_core.Base.{◌+◌, ◌-◌, ◌≡◌, refl, [], ◌∷◌, true, some, ok, arith, inl}
use xlgo_core.Base.Text.{codes, text_eq}
use xlgo_core.Jwt.{answer_lost, fine, parse_token, refresh_token, blacklist_key}
use xlgo_core.Jwt.Revoked.{refused, revocations, refresh_token-revokes}
use xlgo_core.Jwt.Toy.{
  config, old_claims, old_token, new_token, toy, set_end, ends, nothing, Claims-discrete,
}

refresh-old :
    refresh_token toy ends
      (some config)
      old_token
      (some (codes "j2"))
      fine
      fine
      10900000000
      10950000000
      11000000001
      nothing
    ≡ (
      set_end (blacklist_key (codes "j1")) (10950000000 + (13000000000 - 10950000000)) nothing,
      ok new_token,
    )
unfolding refresh_token Claims-discrete ℕ_discrete text_eq
refresh-old = refl

refresh_token-revokes_example :
    refused (
      parse_token toy ends (some config) old_token answer_lost 12000000000 (
        revocations toy ends
          (record { wire = fine; jti = codes "j3"; expiry = 14000000000; time = 11500000000 } ∷ [])
          (set_end
            (blacklist_key (codes "j1"))
            (10950000000 + (13000000000 - 10950000000))
            nothing)))
    ≡ true
unfolding text_eq
refresh_token-revokes_example =
    refresh_token-revokes toy ends (some config) (some config) old_token new_token
      (some (codes "j2")) fine fine answer_lost 10900000000 10950000000 11000000001 13000000000
      12000000000 nothing
      (set_end (blacklist_key (codes "j1")) (10950000000 + (13000000000 - 10950000000)) nothing)
      old_claims
      (record { wire = fine; jti = codes "j3"; expiry = 14000000000; time = 11500000000 } ∷ [])
      refresh-old refl refl (refl, tt) (omega arith) (inl (omega arith))
