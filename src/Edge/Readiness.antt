-- ===== src/Edge/Readiness.antt =====
-- packages/plugins/readiness/index.ts: `ReadinessRegistry`. A probe is its name and what calling
-- `check` gives: a Boolean, or a throw or rejection, which is `none`.
use protege_mais.Base.{
  ◌≡◌, refl, inl, inr, Bool, true, false, not, ◌&&◌, Option, List, [], ◌∷◌, arith, ◌==◌,
  if◌then◌else◌, Bool-cases, default, length, every, any, Result, ok, err,
}
use mathlib.Core.Path.{subst}
use protege_mais.Text.{Text, text_eq, trim}
use protege_mais.Common.Errors.{Thrown, range_error, plain_error}

pub record ReadinessProbe : Type 0 where
  pub name : Text
  pub check : Option Bool

-- The newest probe first.
pub record ReadinessRegistry : Type 0 where
  pub probes : List ReadinessProbe
  pub accepting_traffic : Bool

abbrev pub new_registry : ReadinessRegistry
new_registry = record { probes = []; accepting_traffic = true }

abbrev pub has_probe : Text → List ReadinessProbe → Bool
has_probe name = any (λ (p : ReadinessProbe). text_eq p.name name)

unfoldable pub register : ReadinessProbe → ReadinessRegistry → Result Thrown ReadinessRegistry
unfolding trim
register probe r =
    let name = trim probe.name in
    if length name == 0
    then err range_error
    else if has_probe name r.probes
    then err plain_error
    else ok (record r { probes = record { name = name; check = probe.check } ∷ r.probes })

unfoldable pub mark_shutting_down : ReadinessRegistry → ReadinessRegistry
mark_shutting_down r = record r { accepting_traffic = false }

-- `result.status === 'fulfilled' && result.value === true`
abbrev pub is_fulfilled : ReadinessProbe → Bool
is_fulfilled p = default p.check false

-- `isReady`; `after` is the registry when all the probes have settled, which the shutdown may have
-- marked in the meantime.
unfoldable pub is_ready : ReadinessRegistry → ReadinessRegistry → Bool
is_ready r after =
    if not r.accepting_traffic
    then false
    else after.accepting_traffic && every is_fulfilled r.probes

register_inv :
    (p : ReadinessProbe) (r r' : ReadinessRegistry)
    → register p r ≡ ok r'
    → record r { probes = record { name = trim p.name; check = p.check } ∷ r.probes } ≡ r'
unfolding register
register_inv p r r' e = ground arith

registered_ready :
    (p : ReadinessProbe) (r r' after : ReadinessRegistry)
    → register p r ≡ ok r'
    → is_ready r' after ≡ (is_fulfilled p && is_ready r after)
unfolding is_ready
registered_ready p r r' after e =
    subst (λ x. is_ready x after ≡ (is_fulfilled p && is_ready r after)) (register_inv p r r' e)
      (ground arith)

-- A probe that has been registered takes part in the readiness: the registry is ready exactly if
-- it was before and the probe holds; and it is not ready once the shutdown has been marked, before
-- the probes are asked or while they are.
pub is_ready-register :
    (p : ReadinessProbe) (r r' after : ReadinessRegistry)
    → register p r ≡ ok r'
    → (is_ready r' after ≡ (is_fulfilled p && is_ready r after))
      × (is_ready (mark_shutting_down r') after ≡ false)
      × (is_ready r' (mark_shutting_down after) ≡ false)
unfolding register is_ready mark_shutting_down
is_ready-register p r r' after e = (
  registered_ready p r r' after e,
  refl,
  elim (Bool-cases r'.accepting_traffic) [
    | inl open_gate ↦ rw open_gate refl
    | inr shut ↦ rw shut refl
  ],
)
