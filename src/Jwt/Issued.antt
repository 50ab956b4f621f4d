-- ===== src/Jwt/Issued.antt =====
-- jwt/jwt.go: a token that was issued is read back with its claims.
use xlgo_core.Base.Text.{Text}
