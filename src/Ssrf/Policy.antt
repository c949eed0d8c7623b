-- ===== src/Ssrf/Policy.antt =====
-- What `assertSafeUrl` admits, and what it lets through.
use ai_business_operating_sy.Base.{Text, [], arith, false, refl, ◌∷◌, ◌≡◌}
use ai_business_operating_sy.Ssrf.Guard.{
  passed, is_private_v4, is_private_v6, is_loopback_name, check_host,
}

bracket_not_private :
    (rest : Text) → (is_private_v4 (b'[' ∷ rest) ≡ false) × (is_private_v6 (b'[' ∷ rest) ≡ false)
unfolding is_private_v4 is_private_v6
bracket_not_private rest = (refl, refl)

-- No host that starts with a bracket is refused as a private literal: without an allowlist the host
-- checks pass it, unless it ends like a local name.
pub bracketed_host_passes :
    (rest : Text) → is_loopback_name (b'[' ∷ rest) ≡ false → check_host [] (b'[' ∷ rest) ≡ passed
unfolding check_host
bracketed_host_passes rest h =
    let (v4, v6) = bracket_not_private rest in rw h (ground (arith, v4, v6))
