-- ===== src/Logging/Shape.antt =====
-- packages/plugins/logging/sanitization.ts: every value that is sanitized fits the log.
mod Entries
use protege_mais.Base.{
  ℕ, zero, suc, ◌≡◌, refl, Bool, true, false, Option, none, some, [], ◌∷◌, if◌then◌else◌, every,
}
use protege_mais.Logging.Shape.Entries.{
  Given, Taming, primitive-Fits, leaf-Fits, or_unserializable-Fits, inside-Fits,
}
use protege_mais.Logging.Keys.{normalize_key, is_sensitive_log_key}
use protege_mais.Text.{member, includes, is_alphanumeric, Text, codes}
use protege_mais.Text.Unicode.{lower_ascii, Unicode, is_ascii}
use protege_mais.Logging.Sanitization.{
  Logged, text, truncated_log_value, circular_log_value, LogValue, object, Heap, Seen, Sanitizing,
  sanitize_leaf, sanitize_inside, sanitize_deepest, sanitize_object, unless_leaf, has_seen,
  on_value, sanitize_internal, sanitize_log_value, maximum_depth,
}
use protege_mais.Logging.Fits.{Fits}

module _ (sensitive : Text → Bool) (type_fine : sensitive (codes "type") ≡ false)
    (truncated_fine : sensitive (codes "truncated") ≡ false) where
  unless_leaf-Fits :
      (height : ℕ) (leaf : Option (Option Logged)) (seen : Seen) (otherwise : Option Logged × Seen)
      → Given (Given (Fits sensitive height)) leaf
      → Given (Fits sensitive height) otherwise.0
      → Given (Fits sensitive height) (unless_leaf leaf seen otherwise).0
  unless_leaf-Fits height none seen otherwise a b = b
  unless_leaf-Fits height (some answer) seen otherwise a b = a

  unless_seen-Fits :
      (height : ℕ) (repeated : Bool) (seen : Seen) (inside : Option Logged × Seen)
      → Given (Fits sensitive height) inside.0
      → Given
          (Fits sensitive height)
          (if repeated then (some (text circular_log_value), seen) else inside).0
  unless_seen-Fits height true seen inside h = tt
  unless_seen-Fits height false seen inside h = h

  object-Fits :
      (height : ℕ) (f : LogValue → Sanitizing Logged) (heap : Heap) (id : ℕ) (seen : Seen)
      → Taming sensitive height f
      → Given (Fits sensitive (suc height)) (sanitize_object sensitive f heap id seen).0
  unfolding sanitize_object
  object-Fits height f heap id seen tame =
      let inside = sanitize_inside sensitive f (heap id) (id ∷ seen) in
      unless_leaf-Fits (suc height) (sanitize_leaf (heap id)) seen
        (if has_seen id seen then (some (text circular_log_value), seen) else inside)
        (leaf-Fits sensitive type_fine truncated_fine height (heap id))
        (unless_seen-Fits (suc height) (has_seen id seen) seen inside
          (inside-Fits sensitive type_fine truncated_fine height f tame (heap id) (id ∷ seen)))

  deepest-Fits :
      (heap : Heap) (id : ℕ) (seen : Seen)
      → Given (Fits sensitive 1) (sanitize_deepest heap id seen).0
  unfolding sanitize_deepest
  deepest-Fits heap id seen =
      unless_leaf-Fits 1 (sanitize_leaf (heap id)) seen (some (text truncated_log_value), seen)
        (leaf-Fits sensitive type_fine truncated_fine 0 (heap id)) tt

  on_value-Fits :
      (height : ℕ) (f : ℕ → Sanitizing Logged)
      → ((id : ℕ) (seen : Seen) → Given (Fits sensitive height) (f id seen).0)
      → Taming sensitive height (on_value f)
  on_value-Fits height f tame (object id) seen = tame id seen
  on_value-Fits height f tame value seen =
      primitive-Fits sensitive type_fine truncated_fine height value

  internal-Fits :
      (heap : Heap) (left : ℕ) → Taming sensitive (suc left) (sanitize_internal sensitive heap left)
  unfolding sanitize_internal
  internal-Fits heap zero = on_value-Fits 1 (sanitize_deepest heap) (deepest-Fits heap)
  internal-Fits heap (suc left) =
      on_value-Fits (suc (suc left))
        (sanitize_object sensitive (sanitize_internal sensitive heap left) heap)
        (λ id seen.
          object-Fits (suc left) (sanitize_internal sensitive heap left) heap id seen
            (internal-Fits heap left))

module _ (u : Unicode) (to_nfd : Text → Text)
    (nfd_of_ascii : (s : Text) → every is_ascii s ≡ true → to_nfd s ≡ s) where
  -- The two keys that the source writes itself are not sensitive.
  type_normalized : normalize_key u to_nfd (codes "type") ≡ codes "type"
  unfolding normalize_key is_alphanumeric lower_ascii
  type_normalized =
      rw (nfd_of_ascii (codes "type") refl, normalize_key) (u.lower_of_ascii (codes "type") refl)

  truncated_normalized : normalize_key u to_nfd (codes "truncated") ≡ codes "truncated"
  unfolding normalize_key is_alphanumeric lower_ascii
  truncated_normalized =
      rw (nfd_of_ascii (codes "truncated") refl, normalize_key)
        (u.lower_of_ascii (codes "truncated") refl)

  type_fine : is_sensitive_log_key u to_nfd (codes "type") ≡ false
  unfolding is_sensitive_log_key member includes
  type_fine = rw type_normalized refl

  truncated_fine : is_sensitive_log_key u to_nfd (codes "truncated") ≡ false
  unfolding is_sensitive_log_key member includes
  truncated_fine = rw truncated_normalized refl

  -- Whatever is logged, on any heap, cyclic ones and throwing getters included: what reaches the
  -- logger has at most nine levels of lists and objects, each of at most 101 entries; under a
  -- sensitive key stands only the mark of a redaction; and no key is one of a prototype's.
  pub sanitize_log_value-Fits :
      (heap : Heap) (value : LogValue)
      → Fits (is_sensitive_log_key u to_nfd) 9 (sanitize_log_value u to_nfd heap value)
  unfolding sanitize_log_value
  sanitize_log_value-Fits heap value =
      let sensitive = is_sensitive_log_key u to_nfd in
      or_unserializable-Fits sensitive type_fine truncated_fine 9
        (sanitize_internal sensitive heap maximum_depth value []).0
        (internal-Fits sensitive type_fine truncated_fine heap maximum_depth value [])
