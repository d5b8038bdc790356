-- ===== src/AuthLimit/ClientIp.antt =====
-- `_rate_limit_auth` of gateway/api/auth.py: which address a request to an authentication endpoint
-- is counted under.
use mathlib.Core.List.{reverse}
use tao_gateway.Base.{
  ◌≡◌, refl, String, Bool, true, false, Option, none, some, List, [], ◌∷◌, ◌++◌, any, str_eq,
  str_append, if◌then◌else◌,
}
pub mod Spoofing

-- `ip not in settings.trusted_proxies`
abbrev pub is_trusted : List String → String → Bool
is_trusted trusted ip = any (λ t. str_eq t ip) trusted

-- The loop over `reversed(parts)`, with `client_ip = direct_ip` where it finds nothing.
unfoldable pub first_untrusted : List String → String → List String → String
first_untrusted trusted direct [] = direct
first_untrusted trusted direct (ip ∷ rest) =
    if is_trusted trusted ip then first_untrusted trusted direct rest else ip

-- `forwarded` is the header x-forwarded-for, split at its commas and stripped; `none` where the
-- header is missing or empty.
unfoldable pub client_ip : List String → String → Option (List String) → String
client_ip trusted direct none = direct
client_ip trusted direct (some parts) =
    if is_trusted trusted direct then first_untrusted trusted direct (reverse parts) else direct

-- `canonical` is `ipaddress.ip_address`: the text of the address that a text denotes, of the IPv4
-- address where that is mapped into IPv6, and `none` where it raises `ValueError`.
unfoldable pub rate_key : (String → Option String) → String → String
rate_key canonical ip =
    str_append "auth_rate:" (elim (canonical ip) [ none ↦ ip | some normal ↦ normal ])
