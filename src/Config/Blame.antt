-- ===== src/Config/Blame.antt =====
-- packages/config/validation.ts: what the functions that read one key blame when they throw.
use protege_mais.Base.{
  String, ◌≡◌, refl, inl, inr, Bool, true, false, not, ◌&&◌, ◌||◌, Option, none, some, List, [],
  ◌∷◌, map, leb, Bool-cases, Option-cases, any, All, ok, err, ◌>>=◌, throw_if, err_inj,
}
use mathlib.Core.List.{Memᴰ}
use mathlib.Core.Path.{subst}
use protege_mais.Config.Shapes.{
  unique_from, split_on, decimal_from, is_host, is_decimal, Net, is_empty,
}
use protege_mais.Text.{text_eq, trim, member, codes, Text}
use protege_mais.Config.Readers.{
  missing, invalid, insecure, prod, is_prod, environment_named, with_non_production_default,
  required, read_optional, public_http_url, port, passing, parsed_url, origins, origin, or_blame,
  host, each_origin, app_environment, ConfigurationErrorReason, ConfigurationError, Reading,
  EnvironmentSource, AppEnvironment,
}
use protege_mais.Text.Unicode.{Unicode}

-- What holds of the thrown value, if one was thrown.
abbrev pub Throws : {A : Type 0} → (ConfigurationError → Type 0) → Reading A → Type 0
Throws P (ok value) = Unit
Throws P (err thrown) = P thrown

pub bind-Throws :
    (P : ConfigurationError → Type 0) {A B : Type 0} (next : A → Reading B) (first : Reading A)
    → Throws P first
    → ((a : A) → first ≡ ok a → Throws P (next a))
    → Throws P (first >>= next)
bind-Throws P next (ok a) fair following = following a refl
bind-Throws P next (err e) fair following = fair

pub thrown_holds :
    (P : ConfigurationError → Type 0) {A : Type 0} (result : Reading A) (e : ConfigurationError)
    → Throws P result
    → result ≡ err e
    → P e
thrown_holds P (ok a) e fair refused = cc
thrown_holds P (err d) e fair refused = subst P (err_inj refused) fair

module _ (u : Unicode) (net : Net) (source : EnvironmentSource) (known : List String) where
  -- A missing key has no text or a blank one, and an insecure value is refused in PROD alone.
  abbrev pub Justified : ConfigurationErrorReason → List String → Type 0
  Justified missing keys = All (λ key. read_optional source key ≡ none) keys
  Justified invalid keys = Unit
  Justified insecure keys = app_environment u net source "APP_ENVIRONMENT" ≡ ok prod

  -- A thrown error names only keys that were to be read, and has its reason.
  pub record Fair (e : ConfigurationError) : Type 0 where
    pub names : All (λ key. Memᴰ key known) e.keys
    pub reasoned : Justified e.reason e.keys

  module _ (key : String) (k : Memᴰ key known) where
    pub invalid-Fair : Fair (record { keys = key ∷ []; reason = invalid })
    invalid-Fair = record { names = (k, tt); reasoned = tt }

    pub or_blame-Fair : {A : Type 0} (o : Option A) → Throws Fair (or_blame key invalid o)
    or_blame-Fair none = invalid-Fair
    or_blame-Fair (some a) = tt

    pub passing-Fair : {A : Type 0} (b : Bool) (a : A) → Throws Fair (passing key invalid b a)
    passing-Fair false a = invalid-Fair
    passing-Fair true a = tt

    pub throw_if-Fair :
        (b : Bool) → Throws Fair (throw_if b (record { keys = key ∷ []; reason = invalid }))
    throw_if-Fair false = tt
    throw_if-Fair true = invalid-Fair

    pub missing-Fair :
        read_optional source key ≡ none → Fair (record { keys = key ∷ []; reason = missing })
    missing-Fair absent = record { names = (k, tt); reasoned = (absent, tt) }

    pub required-Fair : Throws Fair (required source key)
    unfolding required
    required-Fair = elim (Option-cases (read_optional source key)) [
      | inl absent ↦ rw (absent, Throws) (missing-Fair absent)
      | inr (value, present) ↦ rw (present, Throws) tt
    ]

    -- A step after the text of the key was read.
    pub after_required :
        {B : Type 0} (next : Text → Reading B)
        → ((value : Text) → Throws Fair (next value))
        → Throws Fair (required source key >>= next)
    after_required next fair =
        bind-Throws Fair next (required source key) required-Fair (λ value e. fair value)

    pub parsed_url-Fair :
        (protocols : List Text) (value : Text) → Throws Fair (parsed_url u net key protocols value)
    unfolding parsed_url
    parsed_url-Fair protocols value =
        bind-Throws Fair
          (λ parsed.
            passing key invalid (member parsed.protocol protocols && not (is_empty parsed.hostname))
              parsed)
          (or_blame key invalid (net.parse_url value)) (or_blame-Fair (net.parse_url value))
          (λ parsed e.
            passing-Fair (member parsed.protocol protocols && not (is_empty parsed.hostname))
              parsed)

    pub app_environment-Fair : Throws Fair (app_environment u net source key)
    unfolding app_environment
    app_environment-Fair =
        after_required (λ value. or_blame key invalid (environment_named (u.to_upper_case value)))
          (λ value. or_blame-Fair (environment_named (u.to_upper_case value)))

    pub host-Fair : (value : Text) → Throws Fair (host u net key value)
    unfolding host
    host-Fair value = passing-Fair (is_host net value) value

    pub port-Fair : (value : Text) → Throws Fair (port key value)
    unfolding port
    port-Fair value =
        passing-Fair
          (is_decimal value && leb 1 (decimal_from 0 value) && leb (decimal_from 0 value) 65535)
          (decimal_from 0 value)

    pub public_http_url-Fair : Throws Fair (public_http_url u net source key)
    unfolding public_http_url
    public_http_url-Fair =
        after_required
          (λ value. parsed_url u net key (codes "http:" ∷ codes "https:" ∷ []) value >>= λ parsed.
            passing key invalid (is_empty parsed.username && is_empty parsed.password) value)
          (λ value.
            bind-Throws Fair
              (λ parsed.
                passing key invalid (is_empty parsed.username && is_empty parsed.password) value)
              (parsed_url u net key (codes "http:" ∷ codes "https:" ∷ []) value)
              (parsed_url-Fair (codes "http:" ∷ codes "https:" ∷ []) value)
              (λ parsed e.
                passing-Fair (is_empty parsed.username && is_empty parsed.password) value))

    pub with_non_production_default-Fair :
        (environment : AppEnvironment) (fallback : Text)
        → Throws Fair (with_non_production_default source key environment fallback)
    unfolding with_non_production_default
    with_non_production_default-Fair environment fallback =
        elim (Option-cases (read_optional source key)) [
          | inl absent ↦ elim (Bool-cases (is_prod environment)) [
            | inl live ↦ rw (absent, live, Throws) (missing-Fair absent)
            | inr safe ↦ rw (absent, safe, Throws) tt
          ]
          | inr (value, present) ↦ rw (present, Throws) tt
        ]

    pub origin-Fair : (value : Text) → Throws Fair (origin u net key value)
    unfolding origin
    origin-Fair value =
        bind-Throws Fair _ (parsed_url u net key (codes "http:" ∷ codes "https:" ∷ []) value)
          (parsed_url-Fair (codes "http:" ∷ codes "https:" ∷ []) value)
          (λ parsed e.
            passing-Fair
              (is_empty parsed.username
                && is_empty parsed.password
                && (is_empty parsed.pathname || text_eq parsed.pathname (codes "/"))
                && is_empty parsed.search
                && is_empty parsed.hash)
              parsed.origin)

    pub each_origin-Fair : (values : List Text) → Throws Fair (each_origin u net key values)
    unfolding each_origin
    each_origin-Fair [] = tt
    each_origin-Fair (x ∷ xs) = bind-Throws Fair _ (origin u net key x) (origin-Fair x) (λ o e.
        bind-Throws Fair (λ os. ok (o ∷ os)) (each_origin u net key xs) (each_origin-Fair xs)
          (λ os e. tt))

    pub origins-Fair : Throws Fair (origins u net source key)
    unfolding origins
    origins-Fair = after_required _ (λ value.
        bind-Throws Fair _
          (throw_if (any is_empty (map trim (split_on b',' value)))
            (record { keys = key ∷ []; reason = invalid }))
          (throw_if-Fair (any is_empty (map trim (split_on b',' value))))
          (λ done e.
            bind-Throws Fair (λ normalized. ok (unique_from [] normalized))
              (each_origin u net key (map trim (split_on b',' value)))
              (each_origin-Fair (map trim (split_on b',' value))) (λ os e. tt)))
