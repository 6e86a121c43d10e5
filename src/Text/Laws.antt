-- ===== src/Text/Laws.antt =====
-- Equality of texts is equality; trimming and collapsing are idempotent and shorten.
use protege_mais.Base.{
  ℕ, ◌≤◌, ◌≡◌, refl, ap, ◌↔◌, ◌⊎◌, inl, inr, Bool, true, false, [], ◌∷◌, arith, length, Bool-cases,
}
use protege_mais.Text.Defs.{
  before_end, Text, text_eq, utf16_length, is_space, trim_start, trim_end, trim, collapse_from,
  collapse_spaces,
}

pub text_eq→eq : (s t : Text) → text_eq s t ≡ true → s ≡ t
unfolding text_eq
text_eq→eq [] [] h = refl
text_eq→eq [] (d ∷ t) h = cc
text_eq→eq (c ∷ s) [] h = cc
text_eq→eq (c ∷ s) (d ∷ t) h = ground (arith, text_eq→eq s t)

pub text_eq_refl : (s : Text) → text_eq s s ≡ true
unfolding text_eq
text_eq_refl [] = refl
text_eq_refl (c ∷ s) = ground (arith, text_eq_refl s)

pub text_eq_iff : (s t : Text) → (text_eq s t ≡ true) ↔ (s ≡ t)
text_eq_iff s t = (text_eq→eq s t, λ e. rw e (text_eq_refl t))

pub length-le-utf16 : (s : Text) → length s ≤ utf16_length s
unfolding utf16_length
length-le-utf16 [] = omega arith
length-le-utf16 (c ∷ s) = ground (arith, length-le-utf16 s)

-- The first character, if there is one, is no white space.
abbrev pub StartsSolid : Text → Type 0
StartsSolid [] = Unit {0}
StartsSolid (c ∷ s) = is_space c ≡ false

-- So for the last.
abbrev pub EndsSolid : Text → Type 0
EndsSolid [] = Unit {0}
EndsSolid (c ∷ []) = is_space c ≡ false
EndsSolid (c ∷ d ∷ s) = EndsSolid (d ∷ s)

trim_start-StartsSolid : (s : Text) → StartsSolid (trim_start s)
unfolding trim_start
trim_start-StartsSolid [] = tt
trim_start-StartsSolid (c ∷ s) = elim (Bool-cases (is_space c)) [
  | inl e ↦ rw e (trim_start-StartsSolid s)
  | inr e ↦ rw e e
]

before_end-EndsSolid : (c : ℕ) (s : Text) → EndsSolid s → EndsSolid (before_end c s)
unfolding before_end
before_end-EndsSolid c [] h = elim (Bool-cases (is_space c)) [ inl e ↦ rw e tt | inr e ↦ rw e e ]
before_end-EndsSolid c (d ∷ s) h = h

trim_end-EndsSolid : (s : Text) → EndsSolid (trim_end s)
unfolding trim_end
trim_end-EndsSolid [] = tt
trim_end-EndsSolid (c ∷ s) = before_end-EndsSolid c (trim_end s) (trim_end-EndsSolid s)

-- A text with solid ends is left as it is.
trim_start_id : (s : Text) → StartsSolid s → trim_start s ≡ s
unfolding trim_start
trim_start_id [] h = refl
trim_start_id (c ∷ s) h = rw h

trim_end_id : (s : Text) → EndsSolid s → trim_end s ≡ s
unfolding trim_end before_end
trim_end_id [] h = refl
trim_end_id (c ∷ []) h = rw h
trim_end_id (c ∷ d ∷ s) h = rw (trim_end_id (d ∷ s) h)

before_end-StartsSolid : (c : ℕ) (s : Text) → is_space c ≡ false → StartsSolid (before_end c s)
unfolding before_end
before_end-StartsSolid c [] h = rw h h
before_end-StartsSolid c (d ∷ s) h = h

trim_end-StartsSolid : (s : Text) → StartsSolid s → StartsSolid (trim_end s)
unfolding trim_end
trim_end-StartsSolid [] h = tt
trim_end-StartsSolid (c ∷ s) h = before_end-StartsSolid c (trim_end s) h

pub trim-StartsSolid : (s : Text) → StartsSolid (trim s)
unfolding trim
trim-StartsSolid s = trim_end-StartsSolid (trim_start s) (trim_start-StartsSolid s)

pub trim-EndsSolid : (s : Text) → EndsSolid (trim s)
unfolding trim
trim-EndsSolid s = trim_end-EndsSolid (trim_start s)

pub trim_id : (s : Text) → StartsSolid s → EndsSolid s → trim s ≡ s
unfolding trim
trim_id s a b = rw (trim_start_id s a) (trim_end_id s b)

pub trim_idem : (s : Text) → trim (trim s) ≡ trim s
trim_idem s = trim_id (trim s) (trim-StartsSolid s) (trim-EndsSolid s)

-- No white space but a single plain space, and none after another. `after` says that a space
-- stands right before.
abbrev pub Spaced : Bool → Text → Type 0
Spaced after [] = Unit {0}
Spaced true (c ∷ s) = (is_space c ≡ false) × Spaced false s
Spaced false (c ∷ s) = ((is_space c ≡ false) × Spaced false s) ⊎ ((c ≡ 0x20) × Spaced true s)

collapse_from-Spaced : (b : Bool) (s : Text) → Spaced b (collapse_from b s)
unfolding collapse_from
collapse_from-Spaced b [] = tt
collapse_from-Spaced true (c ∷ s) = elim (Bool-cases (is_space c)) [
  | inl e ↦ rw e (collapse_from-Spaced true s)
  | inr e ↦ rw e (e, collapse_from-Spaced false s)
]
collapse_from-Spaced false (c ∷ s) = elim (Bool-cases (is_space c)) [
  | inl e ↦ rw e (inr (refl, collapse_from-Spaced true s))
  | inr e ↦ rw e (inl (e, collapse_from-Spaced false s))
]

pub collapse_spaces-Spaced : (s : Text) → Spaced false (collapse_spaces s)
unfolding collapse_spaces
collapse_spaces-Spaced s = collapse_from-Spaced false s

collapse_from_id : (b : Bool) (s : Text) → Spaced b s → collapse_from b s ≡ s
unfolding collapse_from
collapse_from_id b [] h = refl
collapse_from_id true (c ∷ s) h = rw (h.0, collapse_from_id false s h.1)
collapse_from_id false (c ∷ s) (inl h) = rw (h.0, collapse_from_id false s h.1)
collapse_from_id false (c ∷ s) (inr h) = rw (h.0) (ap (◌∷◌ 0x20) (collapse_from_id true s h.1))

pub collapse_spaces_id : (s : Text) → Spaced false s → collapse_spaces s ≡ s
unfolding collapse_spaces
collapse_spaces_id s h = collapse_from_id false s h

-- A last character that is solid.
abbrev EndsIn : Text → Type 0
EndsIn [] = ⊥
EndsIn (c ∷ []) = is_space c ≡ false
EndsIn (c ∷ d ∷ s) = EndsIn (d ∷ s)

EndsIn-cons : (c : ℕ) (s : Text) → EndsIn s → EndsIn (c ∷ s)
EndsIn-cons c [] h = absurd h
EndsIn-cons c (d ∷ s) h = h

collapse_from-EndsIn : (b : Bool) (s : Text) → EndsIn s → EndsIn (collapse_from b s)
unfolding collapse_from
collapse_from-EndsIn b [] h = absurd h
collapse_from-EndsIn true (c ∷ []) h = rw h h
collapse_from-EndsIn false (c ∷ []) h = rw h h
collapse_from-EndsIn true (c ∷ d ∷ s) h = elim (Bool-cases (is_space c)) [
  | inl e ↦ rw e (collapse_from-EndsIn true (d ∷ s) h)
  | inr e ↦
      rw e (EndsIn-cons c (collapse_from false (d ∷ s)) (collapse_from-EndsIn false (d ∷ s) h))
]
collapse_from-EndsIn false (c ∷ d ∷ s) h = elim (Bool-cases (is_space c)) [
  | inl e ↦
      rw e (EndsIn-cons 0x20 (collapse_from true (d ∷ s)) (collapse_from-EndsIn true (d ∷ s) h))
  | inr e ↦
      rw e (EndsIn-cons c (collapse_from false (d ∷ s)) (collapse_from-EndsIn false (d ∷ s) h))
]

EndsIn-of_solid : (c : ℕ) (s : Text) → EndsSolid (c ∷ s) → EndsIn (c ∷ s)
EndsIn-of_solid c [] h = h
EndsIn-of_solid c (d ∷ s) h = EndsIn-of_solid d s h

EndsSolid-of_in : (s : Text) → EndsIn s → EndsSolid s
EndsSolid-of_in [] h = tt
EndsSolid-of_in (c ∷ []) h = h
EndsSolid-of_in (c ∷ d ∷ s) h = EndsSolid-of_in (d ∷ s) h

pub collapse_spaces-EndsSolid : (s : Text) → EndsSolid s → EndsSolid (collapse_spaces s)
unfolding collapse_spaces
collapse_spaces-EndsSolid [] h = tt
collapse_spaces-EndsSolid (c ∷ s) h =
    EndsSolid-of_in (collapse_from false (c ∷ s))
      (collapse_from-EndsIn false (c ∷ s) (EndsIn-of_solid c s h))

pub collapse_spaces-StartsSolid : (s : Text) → StartsSolid s → StartsSolid (collapse_spaces s)
unfolding collapse_spaces collapse_from
collapse_spaces-StartsSolid [] h = tt
collapse_spaces-StartsSolid (c ∷ s) h = rw h h

-- Collapsing a trimmed text leaves nothing for a second round of either.
pub collapse_trim_idem :
    (s : Text) → collapse_spaces (trim (collapse_spaces (trim s))) ≡ collapse_spaces (trim s)
collapse_trim_idem s =
    let solid = collapse_spaces-StartsSolid (trim s) (trim-StartsSolid s) in
    let ended = collapse_spaces-EndsSolid (trim s) (trim-EndsSolid s) in
    rw (trim_id (collapse_spaces (trim s)) solid ended)
      (collapse_spaces_id (collapse_spaces (trim s)) (collapse_spaces-Spaced (trim s)))
