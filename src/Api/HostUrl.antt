-- ===== src/Api/HostUrl.antt =====
-- The text of a server's URL.
use pocket_relay_client_shar.Prelude.{
  ℕ, ◌≡◌, refl, inl, inr, Bool, Bool-cases, true, false, not, ◌&&◌, List, [], ◌∷◌, ◌++◌,
  if◌then◌else◌,
}
use pocket_relay_client_shar.Prelude.Text.{
  starts_with, ends_with, ends_with-snoc, starts_with-snoc, starts_with-append,
}
use pocket_relay_client_shar.Api.{http_scheme, https_scheme, inferred_scheme, host_url}

-- The scheme part of the text.
abbrev pub with_scheme : List ℕ → List ℕ
with_scheme host = (if inferred_scheme host then http_scheme else []) ++ host

abbrev pub with_slash : List ℕ → List ℕ
with_slash url = if ends_with url b'/' then url else url ++ (b'/' ∷ [])

with_slash-ends : (url : List ℕ) → ends_with (with_slash url) b'/' ≡ true
with_slash-ends url = elim (Bool-cases (ends_with url b'/')) [
  | inl e ↦ rw (e, e)
  | inr e ↦ rw e (ends_with-snoc url b'/')
]

and_false : (b : Bool) → (b && false) ≡ false
and_false true = refl
and_false false = refl

inferred_scheme-append :
    (url t : List ℕ) → inferred_scheme url ≡ false → inferred_scheme (url ++ t) ≡ false
unfolding inferred_scheme
inferred_scheme-append url t h = elim (Bool-cases (starts_with url http_scheme)) [
  | inl http ↦ rw (starts_with-snoc url t http_scheme http) refl
  | inr no_http ↦ elim (Bool-cases (starts_with url https_scheme)) [
    | inl https ↦
        rw (starts_with-snoc url t https_scheme https)
          (and_false (not (starts_with (url ++ t) http_scheme)))
    | inr no_https ↦ cc (rw (no_http, no_https) at h)
  ]
]

with_slash-scheme :
    (url : List ℕ) → inferred_scheme url ≡ false → inferred_scheme (with_slash url) ≡ false
with_slash-scheme url h = elim (Bool-cases (ends_with url b'/')) [
  | inl e ↦ rw e h
  | inr e ↦ rw e (inferred_scheme-append url (b'/' ∷ []) h)
]

with_scheme-scheme : (host : List ℕ) → inferred_scheme (with_scheme host) ≡ false
unfolding inferred_scheme
with_scheme-scheme host = elim (Bool-cases (inferred_scheme host)) [
  | inl e ↦ rw (e, starts_with-append http_scheme host) refl
  | inr e ↦ rw (e, e)
]

-- The text has a scheme and a slash at its end, and stays as it is when it is given for a host.
pub host_url_lem :
    (host : List ℕ)
    → (inferred_scheme (host_url host) ≡ false)
      × (ends_with (host_url host) b'/' ≡ true)
      × (host_url (host_url host) ≡ host_url host)
unfolding host_url
host_url_lem host =
    let scheme = with_slash-scheme (with_scheme host) (with_scheme-scheme host) in
    let slash = with_slash-ends (with_scheme host) in (scheme, slash, rw (host_url, scheme, slash))
