-- ===== src/Config/Hosts.antt =====
-- packages/config/validation.ts, `host`: what an accepted host looks like.
use protege_mais.Base.{
  ℕ, ◌≤◌, ◌≡◌, refl, ap, ◌⊎◌, inl, inr, Bool, true, false, not, ◌||◌, none, some, List, [], ◌∷◌,
  ◌++◌, arith, leb, ◌==◌, leb→le, Bool-cases, Option-cases, every, any, All,
}
use protege_mais.Text.{Text, codes, utf16_length, is_space, is_alphanumeric, includes, starts_with}
use protege_mais.Config.Shapes.{Net, split_on, unsnoc, is_framed, is_host_label, is_host}

-- A character that ends no host in a URL, and no white space.
abbrev is_plain_char : ℕ → Bool
is_plain_char c = not (c == b'/' || c == b'?' || c == b'#' || is_space c)

abbrev is_label_char : ℕ → Bool
is_label_char c = is_alphanumeric c || c == b'-'

-- A label of a domain name: letters, digits and dashes, with no dash at either end.
record IsLabel (label : Text) : Type 0 where
  short : utf16_length label ≤ 63
  letters : every is_label_char label ≡ true
  start : (c : ℕ) × (rest : Text) × (label ≡ c ∷ rest) × (is_alphanumeric c ≡ true)
  end : (rest : Text) × (c : ℕ) × (label ≡ rest ++ c ∷ []) × (is_alphanumeric c ≡ true)

-- An address, or a domain name of labels between dots; without a scheme, a path or white space.
pub record IsHostShape (net : Net) (host : Text) : Type 0 where
  plain : every is_plain_char host ≡ true
  named : (net.is_ip host ≡ true) ⊎ ((utf16_length host ≤ 253) × All IsLabel (split_on b'.' host))

unsnoc-none : (s : Text) → unsnoc s ≡ none → s ≡ []
unfolding unsnoc
unsnoc-none [] e = refl
unsnoc-none (c ∷ s) e = elim (Option-cases (unsnoc s)) [
  | inl ended ↦ cc (rw ended at e)
  | inr ((m, d), more) ↦ cc (rw more at e)
]

unsnoc_inv : (s middle : Text) (last : ℕ) → unsnoc s ≡ some (middle, last) → s ≡ middle ++ last ∷ []
unfolding unsnoc
unsnoc_inv [] middle last e = cc
unsnoc_inv (c ∷ s) middle last e = elim (Option-cases (unsnoc s)) [
  | inl ended ↦
      let found : some ([], c) ≡ some (middle, last) = rw ended at e in
      let no_middle : [] ≡ middle = cc found in
      let same : c ≡ last = cc found in rw (← no_middle, ← same, unsnoc-none s ended) refl
  | inr ((m, d), more) ↦
      let found : some (c ∷ m, d) ≡ some (middle, last) = rw more at e in
      let longer : c ∷ m ≡ middle = cc found in
      let same : d ≡ last = cc found in
      rw (← longer, ← same) (ap (λ t. c ∷ t) (unsnoc_inv s m d more))
]

every-snoc :
    (p : ℕ → Bool) (s : Text) (c : ℕ) → every p s ≡ true → p c ≡ true → every p (s ++ c ∷ []) ≡ true
every-snoc p [] c h k = ground (arith, k)
every-snoc p (d ∷ s) c h k = ground (arith, h, every-snoc p s c)

plain_of :
    (s : Text)
    → includes s (codes "/") ≡ false
    → includes s (codes "?") ≡ false
    → includes s (codes "#") ≡ false
    → any is_space s ≡ false
    → every is_plain_char s ≡ true
unfolding includes starts_with
plain_of [] a b c d = refl
plain_of (x ∷ s) a b c d = ground (arith, a, b, c, d, plain_of s)

label_of : (label : Text) → is_host_label label ≡ true → IsLabel label
unfolding is_host_label is_framed
label_of [] h = ground arith
label_of (c ∷ s) h =
    let few : leb (utf16_length (c ∷ s)) 63 ≡ true = ground (arith, h) in
    let first : is_alphanumeric c ≡ true = ground (arith, h) in
    elim (Option-cases (unsnoc s)) [
      | inl ended ↦
          let alone = unsnoc-none s ended in
          record {
            short = leb→le (utf16_length (c ∷ s)) 63 few;
            letters = rw alone (ground (arith, first));
            start = (c, s, refl, first);
            end = ([], c, ap (λ t. c ∷ t) alone, first);
          }
      | inr ((middle, d), more) ↦
          let parts = unsnoc_inv s middle d more in
          let inner : every is_label_char middle ≡ true = ground (arith, h, more) in
          let last : is_alphanumeric d ≡ true = ground (arith, h, more) in
          record {
            short = leb→le (utf16_length (c ∷ s)) 63 few;
            letters = rw parts (
                ground
                  (arith, first, every-snoc is_label_char middle d inner (ground (arith, last))));
            start = (c, s, refl, first);
            end = (c ∷ middle, d, ap (λ t. c ∷ t) parts, last);
          }
    ]

labels_of : (labels : List Text) → every is_host_label labels ≡ true → All IsLabel labels
labels_of [] h = tt
labels_of (label ∷ labels) h =
    (label_of label (ground (arith, h)), labels_of labels (ground (arith, h)))

pub is_host-IsHostShape : (net : Net) (host : Text) → is_host net host ≡ true → IsHostShape net host
unfolding is_host
is_host-IsHostShape net host h = record {
  plain =
      plain_of host (ground (arith, h)) (ground (arith, h)) (ground (arith, h)) (ground (arith, h));
  named = elim (Bool-cases (net.is_ip host)) [
    | inl address ↦ inl address
    | inr name ↦ inr (
      leb→le (utf16_length host) 253 (ground (arith, h, name)),
      labels_of (split_on b'.' host) (ground (arith, h, name)),
    )
  ];
}
