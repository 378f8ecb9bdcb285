-- ===== src/Access.antt =====
-- Who may do what: backend/internal/auth, backend/internal/api/ratelimit.go and
-- backend/internal/api/permissions.go.
pub mod Roles
pub mod Limits
pub mod Routes
