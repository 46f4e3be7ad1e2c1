-- ===== src/Transport/Target.antt =====
-- transport.go, target: a scheme with a host and port, which are numbers here. The empty string is 0.
use httplb.Prelude.{ℕ, ◌≡◌, Bool, true, ◌&&◌, ◌==◌, if◌then◌else◌, arith, ◌↔◌}

pub record Target : Type 0 where
  pub scheme : ℕ
  pub host_port : ℕ

-- the schemes that the code names
abbrev pub empty : ℕ
empty = 0

abbrev pub http : ℕ
http = 1

abbrev pub https : ℕ
https = 2

abbrev pub h2c : ℕ
h2c = 3

-- Equality of two targets
abbrev pub same : Target → Target → Bool
same a b = a.scheme == b.scheme && a.host_port == b.host_port

pub same_iff : (a b : Target) → (same a b ≡ true) ↔ (a ≡ b)
same_iff a b = ground arith

-- http where no scheme is given, in targetFromURL and in WithAllowBackendTarget
unfoldable pub or_http : ℕ → ℕ
or_http scheme = if scheme == empty then http else scheme

-- targetFromURL
unfoldable pub target_from_url : ℕ → ℕ → Target
target_from_url url_scheme url_host = record { scheme = or_http url_scheme; host_port = url_host }
