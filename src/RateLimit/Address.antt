-- ===== src/RateLimit/Address.antt =====
-- app/middleware.py: the address that stands for a client. `known` is the standard library's reader
-- of addresses: none for a text that is no address, else whether it is private or a loopback.
use Prim.Native.Char.{code}
use devflowfix.Base.{
  strip_left, strip_right, is_some, ◌≡◌, refl, ◌⊎◌, inl, inr, Bool, true, false, not, Option, none,
  some, String, str_eq, ◌==◌, if◌then◌else◌, arith,
}

unfoldable pub until_comma : String → String
until_comma String.[] = String.[]
until_comma (String.◌∷◌ c s) =
    let rest = until_comma s in if code c == b',' then String.[] else String.◌∷◌ c rest

pub record Headers : Type 0 where
  pub cf_connecting_ip : Option String
  pub x_real_ip : Option String
  pub x_forwarded_for : Option String

module _ (known : String → Option Bool) where
  abbrev first_of : String → Option String
  first_of s = if str_eq s "" then none else if is_some (known s) then some s else none

  unfoldable pub extract_first_forwarded_ip : Option String → Option String
  extract_first_forwarded_ip none = none
  extract_first_forwarded_ip (some s) =
      if str_eq s "" then none else first_of (strip_right (strip_left (until_comma s)))

  abbrev is_inside : Option Bool → Bool
  is_inside none = false
  is_inside (some b) = b

  unfoldable pub is_private_or_loopback_ip : Option String → Bool
  is_private_or_loopback_ip none = false
  is_private_or_loopback_ip (some s) = if str_eq s "" then false else is_inside (known s)

  abbrev first_some : Option String → Option String → String → String
  first_some (some s) o d = s
  first_some none (some s) d = s
  first_some none none d = d

  abbrev or_text : Option String → String → String
  or_text none d = d
  or_text (some s) d = s

  abbrev host_of : Option String → String
  host_of peer = or_text peer "unknown"

  -- `peer` is the host of the connection, where there is one.
  unfoldable pub resolve_client_ip : Option String → Headers → String
  resolve_client_ip peer h =
      if not (is_private_or_loopback_ip (some (host_of peer)))
      then host_of peer
      else first_some (extract_first_forwarded_ip h.cf_connecting_ip)
          (extract_first_forwarded_ip h.x_real_ip)
          (or_text (extract_first_forwarded_ip h.x_forwarded_for) (host_of peer))

  is_address : Option String → Bool
  is_address none = true
  is_address (some s) = is_some (known s)

  extract-is_address : (o : Option String) → is_address (extract_first_forwarded_ip o) ≡ true
  unfolding extract_first_forwarded_ip is_address
  extract-is_address none = refl
  extract-is_address (some s) = ground arith

  first_some-known :
      (a b c : Option String) (peer : String)
      → is_address a ≡ true
      → is_address b ≡ true
      → is_address c ≡ true
      → (first_some a b (or_text c peer) ≡ peer)
        ⊎ (is_some (known (first_some a b (or_text c peer))) ≡ true)
  unfolding is_address
  first_some-known (some s) b c peer h k l = inr h
  first_some-known none (some s) c peer h k l = inr k
  first_some-known none none (some s) peer h k l = inr l
  first_some-known none none none peer h k l = inl refl

  -- The headers of a peer that is not private and no loopback are not heard: it stands for itself.
  -- Behind a private peer the client is that peer or an address that one of the three headers names,
  -- and then a text that is an address.
  resolve_client_ip-trusted :
      (peer : String) (h : Headers)
      → (is_private_or_loopback_ip (some peer) ≡ false → resolve_client_ip (some peer) h ≡ peer)
        × ((resolve_client_ip (some peer) h ≡ peer)
            ⊎ (is_some (known (resolve_client_ip (some peer) h)) ≡ true))
  unfolding resolve_client_ip
  resolve_client_ip-trusted peer h =
      let a = extract-is_address h.cf_connecting_ip in
      let b = extract-is_address h.x_real_ip in
      let c = extract-is_address h.x_forwarded_for in
      (λ p. ground (arith, p), ground (arith, first_some-known _ _ _ peer a b c))
