-- ===== src/Database/Directory/Position.antt =====
-- packages/models/organization-units.ts: `parseOrganizationUnitPosition`, of the hexadecimal EWKB that
-- PostGIS answers with. A double is its eight bytes, the most significant first.
pub mod Ewkb
use protege_mais.Base.{
  ℕ, ◌+◌, ◌-◌, ◌*◌, ◌/◌, ◌%◌, Bool, not, ◌&&◌, ◌||◌, List, [], ◌∷◌, ltb, leb, ◌==◌, if◌then◌else◌,
  length, take, drop, every, Result, ok, err,
}
use protege_mais.Text.{Text, is_digit}

pub record OrganizationUnitPosition : Type 0 where
  pub longitude : List ℕ
  pub latitude : List ℕ

-- The TypeErrors of the source, by their messages.
pub data PositionError : Type 0 where
  not_hexadecimal truncated invalid_byte_order not_a_point not_srid_4326 : PositionError

-- `[0-9a-f]`, with the flag `i`.
unfoldable pub is_hex : ℕ → Bool
unfolding is_digit
is_hex c = is_digit c || (leb b'a' c && leb c b'f') || (leb b'A' c && leb c b'F')

-- `Number.parseInt` of one such digit.
unfoldable pub hex_value : ℕ → ℕ
unfolding is_digit
hex_value c = if is_digit c then c - b'0' else if leb b'a' c then c - b'a' + 10 else c - b'A' + 10

-- The bytes of a text of an even length.
unfoldable pub bytes_of : Text → List ℕ
unfolding hex_value
bytes_of [] = []
bytes_of (a ∷ []) = []
bytes_of (a ∷ b ∷ s) = (hex_value a * 16 + hex_value b) ∷ bytes_of s

abbrev pub big_endian : List ℕ → ℕ → ℕ
big_endian [] n = n
big_endian (b ∷ bytes) n = big_endian bytes (n * 256 + b)

abbrev pub reversed_onto : List ℕ → List ℕ → List ℕ
reversed_onto acc [] = acc
reversed_onto acc (b ∷ bytes) = reversed_onto (b ∷ acc) bytes

-- The bytes of a field, the most significant first.
abbrev pub field : Bool → ℕ → ℕ → List ℕ → List ℕ
field little offset size bytes =
    let raw = take size (drop offset bytes) in if little then reversed_onto [] raw else raw

-- `getUint32`
unfoldable pub get_uint32 : Bool → ℕ → List ℕ → ℕ
get_uint32 little offset bytes = big_endian (field little offset 4 bytes) 0

-- What follows the byte order.
unfoldable pub parse_point : Bool → List ℕ → Result PositionError OrganizationUnitPosition
unfolding get_uint32
parse_point little bytes =
    let geometry_type = get_uint32 little 1 bytes in
    let has_srid = (geometry_type / 0x20000000) % 2 == 1 in
    let offset = if has_srid then 9 else 5 in
    if not (geometry_type % 256 == 1)
    then err not_a_point
    else if ltb (length bytes) (offset + 16)
    then err truncated
    else if has_srid && not (get_uint32 little 5 bytes == 4326)
    then err not_srid_4326
    else ok (record {
      longitude = field little offset 8 bytes;
      latitude = field little (offset + 8) 8 bytes;
    })

unfoldable pub parse_bytes : List ℕ → Result PositionError OrganizationUnitPosition
unfolding parse_point
parse_bytes [] = err truncated
parse_bytes (order ∷ bytes) =
    if ltb (length (order ∷ bytes)) 21
    then err truncated
    else if not (order == 0) && not (order == 1)
    then err invalid_byte_order
    else parse_point (order == 1) (order ∷ bytes)

unfoldable pub parse_organization_unit_position :
    Text → Result PositionError OrganizationUnitPosition
unfolding is_hex bytes_of parse_bytes
parse_organization_unit_position ewkb =
    if not (length ewkb % 2 == 0) || length ewkb == 0 || not (every is_hex ewkb)
    then err not_hexadecimal
    else parse_bytes (bytes_of ewkb)
