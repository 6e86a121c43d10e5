-- ===== src/Database/Sessions/Rows.antt =====
-- packages/repositories/authentication/index.ts: the rows of `auth_sessions` as a table with a
-- primary key, seen through the lookup of one row.
use protege_mais.Base.{
  ◌≡◌, refl, Bool, true, false, ◌&&◌, List, [], ◌∷◌, map, Option, none, some, arith, if◌then◌else◌,
  find, count, All, Bool-cases, inl, inr,
}
use mathlib.Core.Path.{subst}
use protege_mais.Text.{Text, text_eq, text_eq_refl, text_eq_iff}
use protege_mais.Database.Tables.{AuthSession}

abbrev pub lookup : Text → List AuthSession → Option AuthSession
lookup id rows = find (λ (s : AuthSession). text_eq s.id id) rows

-- No row has this key.
abbrev pub Absent : Text → List AuthSession → Type 0
Absent id rows = All (λ (s : AuthSession). text_eq s.id id ≡ false) rows

-- No two rows have one key.
abbrev pub DistinctIds : List AuthSession → Type 0
DistinctIds [] = Unit {0}
DistinctIds (s ∷ rows) = Absent s.id rows × DistinctIds rows

pub text_eq_symm : (a b : Text) → text_eq a b ≡ text_eq b a
text_eq_symm a b = ground (arith, text_eq_iff a b, text_eq_iff b a)

-- Tests of two equal texts against a third agree.
pub text_eq_left : (a b c : Text) → text_eq a b ≡ true → text_eq a c ≡ text_eq b c
text_eq_left a b c h = rw ((text_eq_iff a b).0 h) refl

pub lookup-Absent : (id : Text) (rows : List AuthSession) → Absent id rows → lookup id rows ≡ none
lookup-Absent id [] h = refl
lookup-Absent id (s ∷ rows) h = rw (h.0) (lookup-Absent id rows h.1)

pub find-Absent :
    (p : AuthSession → Bool) (id : Text) (rows : List AuthSession) (s : AuthSession)
    → Absent id rows
    → find p rows ≡ some s
    → text_eq s.id id ≡ false
find-Absent p id [] s h e = cc
find-Absent p id (r ∷ rows) s h e = elim (Bool-cases (p r)) [
  | inl hit ↦ ground (arith, hit, e, h.0)
  | inr miss ↦ find-Absent p id rows s h.1 (rw miss at e)
]

-- What any search finds is the row under its own key.
pub lookup_found :
    (p : AuthSession → Bool) (rows : List AuthSession) (s : AuthSession)
    → DistinctIds rows
    → find p rows ≡ some s
    → lookup s.id rows ≡ some s
lookup_found p [] s d e = cc
lookup_found p (r ∷ rows) s d e = elim (Bool-cases (p r)) [
  | inl hit ↦ ground (arith, hit, e, text_eq_refl s.id)
  | inr miss ↦
      let rest = rw miss at e in
      ground (
        arith,
        lookup_found p rows s d.1 rest,
        find-Absent p r.id rows s d.0 rest,
        text_eq_symm r.id s.id,
      )
]

abbrev pub updated : (AuthSession → Bool) → (AuthSession → AuthSession) → AuthSession → AuthSession
updated q f s = if q s then f s else s

-- An update that keeps the keys acts on the row that is looked up.
module _ (q : AuthSession → Bool) (f : AuthSession → AuthSession)
    (kept : (s : AuthSession) → (f s).id ≡ s.id) where
  id-updated : (s : AuthSession) → (updated q f s).id ≡ s.id
  id-updated s = ground (arith, kept s)

  pub lookup-map :
      (id : Text) (rows : List AuthSession)
      → lookup id (map (updated q f) rows)
        ≡ elim (lookup id rows) [ none ↦ none | some s ↦ some (updated q f s) ]
  lookup-map id [] = refl
  lookup-map id (s ∷ rows) = elim (Bool-cases (text_eq s.id id)) [
    | inl e ↦ rw (id-updated s, e) refl
    | inr e ↦ rw (id-updated s, e) (lookup-map id rows)
  ]

  Absent-map :
      (id : Text) (rows : List AuthSession) → Absent id rows → Absent id (map (updated q f) rows)
  Absent-map id [] h = tt
  Absent-map id (s ∷ rows) h = (rw (id-updated s) h.0, Absent-map id rows h.1)

  pub DistinctIds-map :
      (rows : List AuthSession) → DistinctIds rows → DistinctIds (map (updated q f) rows)
  DistinctIds-map [] d = tt
  DistinctIds-map (s ∷ rows) d =
      (rw (id-updated s) (Absent-map s.id rows d.0), DistinctIds-map rows d.1)

-- A test that fixes the key counts the one row that it can hold for.
module _ (id : Text) (g : AuthSession → Bool) where
  abbrev keyed : AuthSession → Bool
  keyed s = text_eq s.id id && g s

  count-Absent : (rows : List AuthSession) → Absent id rows → count keyed rows ≡ 0
  count-Absent [] h = refl
  count-Absent (s ∷ rows) h = rw (h.0) (count-Absent rows h.1)

  pub count-keyed :
      (rows : List AuthSession) (s : AuthSession)
      → DistinctIds rows
      → lookup id rows ≡ some s
      → g s ≡ true
      → count keyed rows ≡ 1
  count-keyed [] s d e h = cc
  count-keyed (r ∷ rows) s d e h = elim (Bool-cases (text_eq r.id id)) [
    | inl hit ↦
        let fresh = subst (λ k. Absent k rows) ((text_eq_iff r.id id).0 hit) d.0 in
        let same = rw hit at e in ground (arith, hit, same, h, count-Absent rows fresh)
    | inr miss ↦ rw miss (count-keyed rows s d.1 (rw miss at e) h)
  ]
