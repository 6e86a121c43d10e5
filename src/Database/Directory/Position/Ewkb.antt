-- ===== src/Database/Directory/Position/Ewkb.antt =====
-- packages/models/organization-units.ts: the position that was written as EWKB is the one that is
-- read back.
use protege_mais.Base.{
  ℕ, zero, suc, ◌+◌, ◌-◌, ◌*◌, ◌/◌, ◌%◌, ◌≤◌, ◌<◌, ◌≡◌, refl, ◌∙◌, Bool, true, false, List, [], ◌∷◌,
  ◌++◌, arith, ltb, if◌then◌else◌, length, take, drop, length-append, every, ok,
}
use protege_mais.Database.Directory.Position.{
  parse_organization_unit_position, is_digit, OrganizationUnitPosition, is_hex, hex_value, bytes_of,
  reversed_onto, field, get_uint32, parse_point, parse_bytes,
}
use protege_mais.Text.{is_digit, Text}

-- PostGIS writes a byte as two hexadecimal digits, with capitals.
abbrev pub hex_digit : ℕ → ℕ
hex_digit n = if ltb n 10 then n + b'0' else n - 10 + b'A'

abbrev pub hex_of : List ℕ → Text
hex_of [] = []
hex_of (b ∷ bytes) = hex_digit (b / 16) ∷ hex_digit (b % 16) ∷ hex_of bytes

abbrev pub is_byte : ℕ → Bool
is_byte b = ltb b 256

hex_digit-is_hex : (n : ℕ) → n < 16 → is_hex (hex_digit n) ≡ true
unfolding is_hex is_digit
hex_digit-is_hex n h = ground arith

hex_value-hex_digit : (n : ℕ) → n < 16 → hex_value (hex_digit n) ≡ n
unfolding hex_value is_digit
hex_value-hex_digit n h = ground arith

byte_lem :
    (b : ℕ)
    → is_byte b ≡ true
    → hex_value (hex_digit (b / 16)) * 16 + hex_value (hex_digit (b % 16)) ≡ b
byte_lem b h =
    rw
      (hex_value-hex_digit (b / 16) (ground (arith, h)), hex_value-hex_digit (b % 16) (omega arith))
      (omega arith)

length-hex_of : (bytes : List ℕ) → length (hex_of bytes) ≡ 2 * length bytes
length-hex_of [] = refl
length-hex_of (b ∷ bytes) = omega (arith, length-hex_of bytes)

hex_of-is_hex : (bytes : List ℕ) → every is_byte bytes ≡ true → every is_hex (hex_of bytes) ≡ true
hex_of-is_hex [] h = refl
hex_of-is_hex (b ∷ bytes) h =
    rw (hex_digit-is_hex (b / 16) (ground (arith, h)), hex_digit-is_hex (b % 16) (omega arith))
      (hex_of-is_hex bytes (ground (arith, h)))

bytes_of-hex_of : (bytes : List ℕ) → every is_byte bytes ≡ true → bytes_of (hex_of bytes) ≡ bytes
unfolding bytes_of
bytes_of-hex_of [] h = refl
bytes_of-hex_of (b ∷ bytes) h =
    rw (byte_lem b (ground (arith, h)), bytes_of-hex_of bytes (ground (arith, h))) refl

-- The encoding of a point with the identifier of its reference system, in either byte order.
abbrev pub header : Bool → List ℕ
header true = 1 ∷ 1 ∷ 0 ∷ 0 ∷ 0x20 ∷ 0xe6 ∷ 0x10 ∷ 0 ∷ 0 ∷ []
header false = 0 ∷ 0x20 ∷ 0 ∷ 0 ∷ 1 ∷ 0 ∷ 0 ∷ 0x10 ∷ 0xe6 ∷ []

abbrev pub ordered : Bool → List ℕ → List ℕ
ordered true bytes = reversed_onto [] bytes
ordered false bytes = bytes

abbrev pub ewkb : Bool → OrganizationUnitPosition → Text
ewkb little p = hex_of (header little ++ (ordered little p.longitude ++ ordered little p.latitude))

take_first : (n : ℕ) (xs ys : List ℕ) → length xs ≡ n → take n (xs ++ ys) ≡ xs
take_first zero [] ys h = refl
take_first zero (x ∷ xs) ys h = cc
take_first (suc n) [] ys h = cc
take_first (suc n) (x ∷ xs) ys h = rw (take_first n xs ys (omega (arith, h))) refl

drop_first : (n : ℕ) (xs ys : List ℕ) → length xs ≡ n → drop n (xs ++ ys) ≡ ys
drop_first zero [] ys h = refl
drop_first zero (x ∷ xs) ys h = cc
drop_first (suc n) [] ys h = cc
drop_first (suc n) (x ∷ xs) ys h = drop_first n xs ys (omega (arith, h))

take_whole : (n : ℕ) (xs : List ℕ) → length xs ≡ n → take n xs ≡ xs
take_whole zero [] h = refl
take_whole zero (x ∷ xs) h = cc
take_whole (suc n) [] h = cc
take_whole (suc n) (x ∷ xs) h = rw (take_whole n xs (omega (arith, h))) refl

append-nil : (xs : List ℕ) → xs ++ [] ≡ xs
append-nil [] = refl
append-nil (x ∷ xs) = rw (append-nil xs) refl

length-reversed_onto : (acc xs : List ℕ) → length (reversed_onto acc xs) ≡ length acc + length xs
length-reversed_onto acc [] = omega arith
length-reversed_onto acc (x ∷ xs) = omega (arith, length-reversed_onto (x ∷ acc) xs)

reversed_onto_twice :
    (acc rest xs : List ℕ)
    → reversed_onto acc (reversed_onto rest xs) ≡ reversed_onto (xs ++ acc) rest
reversed_onto_twice acc rest [] = refl
reversed_onto_twice acc rest (x ∷ xs) = reversed_onto_twice acc (x ∷ rest) xs

every_reversed :
    (p : ℕ → Bool) (acc xs : List ℕ)
    → every p acc ≡ true
    → every p xs ≡ true
    → every p (reversed_onto acc xs) ≡ true
every_reversed p acc [] h e = h
every_reversed p acc (x ∷ xs) h e =
    every_reversed p (x ∷ acc) xs (ground (arith, h, e)) (ground (arith, e))

-- Of eight bytes in either order.
length-ordered : (little : Bool) (xs : List ℕ) → length (ordered little xs) ≡ length xs
length-ordered true xs = omega (arith, length-reversed_onto [] xs)
length-ordered false xs = refl

every-ordered :
    (little : Bool) (xs : List ℕ)
    → every is_byte xs ≡ true
    → every is_byte (ordered little xs) ≡ true
every-ordered true xs h = every_reversed is_byte [] xs refl h
every-ordered false xs h = h

ordered_twice : (little : Bool) (xs : List ℕ) → ordered little (ordered little xs) ≡ xs
ordered_twice true xs = reversed_onto_twice [] [] xs ∙ append-nil xs
ordered_twice false xs = refl

field_lem :
    (little : Bool) (offset size : ℕ) (bytes : List ℕ)
    → field little offset size bytes ≡ ordered little (take size (drop offset bytes))
field_lem true offset size bytes = refl
field_lem false offset size bytes = refl

read_back :
    (little : Bool) (a b : List ℕ)
    → length a ≡ 8
    → length b ≡ 8
    → parse_bytes (header little ++ (a ++ b))
      ≡ ok (record { longitude = ordered little a; latitude = ordered little b })
unfolding parse_bytes parse_point get_uint32
read_back true a b ha hb =
    rw (length-append a b, ha, hb, take_first 8 a b ha, drop_first 8 a b ha, take_whole 8 b hb) refl
read_back false a b ha hb =
    rw (length-append a b, ha, hb, take_first 8 a b ha, drop_first 8 a b ha, take_whole 8 b hb) refl

length-header : (little : Bool) → length (header little) ≡ 9
length-header true = refl
length-header false = refl

header_whole : (little : Bool) → every is_byte (header little) ≡ true
header_whole true = refl
header_whole false = refl

every_append :
    (p : ℕ → Bool) (xs ys : List ℕ)
    → every p xs ≡ true
    → every p ys ≡ true
    → every p (xs ++ ys) ≡ true
every_append p [] ys h e = e
every_append p (x ∷ xs) ys h e = ground (arith, h, e, every_append p xs ys)

-- A text of whole bytes is read by its bytes.
parse_hex :
    (bytes : List ℕ)
    → every is_byte bytes ≡ true
    → 1 ≤ length bytes
    → parse_organization_unit_position (hex_of bytes) ≡ parse_bytes bytes
unfolding parse_organization_unit_position
parse_hex bytes h some_bytes =
    rw (length-hex_of bytes, hex_of-is_hex bytes h, bytes_of-hex_of bytes h)
      (ground (arith, some_bytes))

-- A position that is written as the EWKB of a point in the reference system 4326, in either byte
-- order, is read back as it was, provided that its coordinates are eight bytes each.
pub parse_organization_unit_position-ewkb :
    (little : Bool) (p : OrganizationUnitPosition)
    → length p.longitude ≡ 8
    → length p.latitude ≡ 8
    → every is_byte p.longitude ≡ true
    → every is_byte p.latitude ≡ true
    → parse_organization_unit_position (ewkb little p) ≡ ok p
parse_organization_unit_position-ewkb little p hx hy bx by =
    let a = ordered little p.longitude in
    let b = ordered little p.latitude in
    parse_hex (header little ++ (a ++ b))
      (every_append is_byte (header little) (a ++ b) (header_whole little) (
        every_append is_byte a b (every-ordered little p.longitude bx)
          (every-ordered little p.latitude by)))
      (omega (arith, length-append (header little) (a ++ b), length-header little))
    ∙ read_back little a b (length-ordered little p.longitude ∙ hx)
        (length-ordered little p.latitude ∙ hy)
    ∙ rw (ordered_twice little p.longitude, ordered_twice little p.latitude) refl
