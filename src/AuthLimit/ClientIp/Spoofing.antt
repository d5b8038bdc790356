-- ===== src/AuthLimit/ClientIp/Spoofing.antt =====
-- A client cannot choose the address that it is counted under by sending the header itself.
use mathlib.Core.List.{reverse, reverse-append, reverse-reverse}
use tao_gateway.Base.{◌≡◌, refl, String, true, false, some, List, [], ◌∷◌, ◌++◌, All, arith}
use tao_gateway.AuthLimit.ClientIp.{is_trusted, first_untrusted, client_ip}

skips_trusted :
    (trusted : List String) (direct ip : String) (proxies rest : List String)
    → All (λ p. is_trusted trusted p ≡ true) proxies
    → is_trusted trusted ip ≡ false
    → first_untrusted trusted direct (proxies ++ (ip ∷ rest)) ≡ ip
unfolding first_untrusted
skips_trusted trusted direct ip [] rest a u = rw u refl
skips_trusted trusted direct ip (p ∷ proxies) rest a u =
    ground (arith, a.0, skips_trusted trusted direct ip proxies rest a.1 u)

-- Where the request comes from a trusted proxy, each proxy appended the address that it saw (the
-- nearest to the gateway last), and `ip` is the first of these from the end that is no trusted
-- proxy, the address is `ip`, whatever the client itself sent before it.
pub client_ip_unspoofed :
    (trusted : List String) (direct ip : String) (sent proxies : List String)
    → is_trusted trusted direct ≡ true
    → is_trusted trusted ip ≡ false
    → All (λ p. is_trusted trusted p ≡ true) proxies
    → client_ip trusted direct (some ((sent ++ (ip ∷ [])) ++ reverse proxies)) ≡ ip
unfolding client_ip
client_ip_unspoofed trusted direct ip sent proxies d u a =
    rw
      (
        d,
        reverse-append (sent ++ (ip ∷ [])) (reverse proxies),
        reverse-append sent (ip ∷ []),
        reverse-reverse proxies,
      )
      (skips_trusted trusted direct ip proxies (reverse sent) a u)
