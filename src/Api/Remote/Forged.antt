-- ===== src/Api/Remote/Forged.antt =====
-- What a client can make of its own address by forging headers.
use wrtdeck.Prelude.{
  if◌then◌else◌, is_empty, Text, nat_key, text_key, codes, trim_space, split, contains,
  split-append, split_whole, ◌≡◌, refl, ap, ◌∙◌, Bool, false, Option, none, some, List, [], ◌∷◌,
  ◌++◌, reverse,
}
use mathlib.Core.List.{reverse-append}
use wrtdeck.Api.Remote.{
  Net, HttpRequest, remote_ip, is_trusted_proxy, untrusted, or_else, last_untrusted, first_part,
  forwarded_ip, real_ip, shown_or, client_at, client_ip,
}

is_empty-append : (s t : Text) → is_empty t ≡ false → is_empty (s ++ t) ≡ false
is_empty-append [] t h = h
is_empty-append (c ∷ s) t h = refl

reverse-split :
    (forged part : Text)
    → contains b',' part ≡ false
    → reverse (split b',' (forged ++ b',' ∷ part)) ≡ part ∷ reverse (split b',' forged)
reverse-split forged part plain =
    ap reverse
      (split-append b',' forged part ∙ ap (split b',' forged ++◌) (split_whole b',' part plain))
    ∙ reverse-append (split b',' forged) (part ∷ [])

module _ {ℓ} {A : Type ℓ} (net : Net A) (trusted : List Text) where
  untrusted_lem :
      (o : Option A) (ip : A)
      → o ≡ some ip
      → is_trusted_proxy net ip trusted ≡ false
      → untrusted net trusted o ≡ some ip
  untrusted_lem o ip e h =
      ap (untrusted net trusted) e ∙ ap (λ (b : Bool). if b then none else some ip) h

  -- The last part decides where it is an address that is no proxy's.
  last_untrusted_lem :
      (part : Text) (parts : List Text) (ip : A)
      → net.parse_ip (trim_space part) ≡ some ip
      → is_trusted_proxy net ip trusted ≡ false
      → last_untrusted net trusted (part ∷ parts) ≡ some ip
  unfolding last_untrusted
  last_untrusted_lem part parts ip e h =
      ap (λ (o : Option A). or_else net o (last_untrusted net trusted parts))
        (untrusted_lem (net.parse_ip (trim_space part)) ip e h)

  forwarded_ip_lem :
      (forged part : Text) (ip : A)
      → contains b',' part ≡ false
      → net.parse_ip (trim_space part) ≡ some ip
      → is_trusted_proxy net ip trusted ≡ false
      → forwarded_ip net trusted (forged ++ b',' ∷ part) ≡ some ip
  unfolding forwarded_ip
  forwarded_ip_lem forged part ip plain e h =
      let xff = forged ++ b',' ∷ part in
      let first = first_part net (split b',' xff) in
      let from_last : List Text → Option A =
        λ parts. or_else net (last_untrusted net trusted parts) first in
      ap (λ (b : Bool). if b then none else from_last (reverse (split b',' xff)))
        (is_empty-append forged (b',' ∷ part) refl)
      ∙ ap from_last (reverse-split forged part plain)
      ∙ ap (λ (o : Option A). or_else net o first)
          (last_untrusted_lem part (reverse (split b',' forged)) ip e h)

  -- Where the last part of `X-Forwarded-For` is an address that is no proxy's, what stands before
  -- its comma does not matter: the client is that address where the connection comes from a trusted
  -- proxy, and the address of the connection otherwise.
  pub client_ip_forged :
      (r : HttpRequest) (remote ip : A) (forged part : Text)
      → remote_ip net r.remote_addr ≡ some remote
      → r.header (codes "X-Forwarded-For") ≡ forged ++ b',' ∷ part
      → contains b',' part ≡ false
      → net.parse_ip (trim_space part) ≡ some ip
      → is_trusted_proxy net ip trusted ≡ false
      → client_ip net r trusted
        ≡ (if is_trusted_proxy net remote trusted then net.show_ip ip else net.show_ip remote)
  unfolding client_ip
  client_ip_forged r remote ip forged part at sent plain e h =
      let found = ap (forwarded_ip net trusted) sent ∙ forwarded_ip_lem forged part ip plain e h in
      ap (client_at net r trusted) at
      ∙ ap
          (λ (o : Option A).
            if is_trusted_proxy net remote trusted
            then shown_or net remote (or_else net o (real_ip net (r.header (codes "X-Real-Ip"))))
            else net.show_ip remote)
          found
