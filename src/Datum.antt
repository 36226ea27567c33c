-- ===== src/Datum.antt =====
-- `Datum` (information.go): the tree of a parsed datum, and `ReadDatum` over a buffer.
pub mod Total
pub mod Fields
use go_bde.Base.{
  ℕ, zero, suc, ◌+◌, ◌-◌, ◌*◌, Bool, true, false, ◌&&◌, ◌||◌, List, [], ◌∷◌, ◌++◌, ltb, leb, ◌==◌,
  if◌then◌else◌, length, take, drop,
}
use go_bde.Base.Bytes.{Bytes}
use go_bde.Types.{
  FveDatum, fve_datum_size, decode_datum, Structure, no_structure, decode_key, decode_stretch_key,
  decode_use_key, decode_aes_ccm, decode_vmk_info, decode_external_info, decode_virtualization_info,
}
use go_bde.Types.Const.{
  type_key, type_unicode, type_stretch_key, type_use_key, type_aes_ccm_encrypted_key,
  type_volume_master_key_info, type_external_info, type_virtualization_info,
}

-- The header, the payload, the structure and the properties; `size` is always that of the header.
mutual
  pub data Datum : Type 0 where
    datum : FveDatum → Bytes → Structure → Datums → Datum

  pub data Datums : Type 0 where
    nil : Datums
    cons : Datum → Datums → Datums

abbrev pub header : Datum → FveDatum
header (datum h payload s ps) = h

abbrev pub payload : Datum → Bytes
payload (datum h p s ps) = p

abbrev pub structure : Datum → Structure
structure (datum h p s ps) = s

abbrev pub properties : Datum → Datums
properties (datum h p s ps) = ps

-- What a reader over a buffer gives: a value and the bytes that are left, or the end of the buffer.
-- `io.ReadFull` and `binary.Read` fail there in two ways, `io.EOF` and `io.ErrUnexpectedEOF`, which no
-- caller tells apart, and leave nothing behind. `no_fuel` is of the model only.
pub data Parse {ℓ} (A : Type ℓ) : Type ℓ where
  got : A → Bytes → Parse A
  end_of_buffer : Parse A
  no_fuel : Parse A

infixl 5 ◌>>=◌
abbrev pub ◌>>=◌ {ℓ κ} : {A : Type ℓ} {B : Type κ} → Parse A → (A → Bytes → Parse B) → Parse B
got a rest >>= f = f a rest
end_of_buffer >>= f = end_of_buffer
no_fuel >>= f = no_fuel

-- `io.ReadFull` of n bytes of a `bytes.Reader`.
unfoldable pub read_full : ℕ → Bytes → Parse Bytes
read_full n bytes =
    if leb n (length bytes) then got (take n bytes) (drop n bytes) else end_of_buffer

-- How a datum of a type goes on behind its header: its structure and the size of that, and whether
-- a payload, properties or neither follow.
pub data Tail : Type 0 where
  payload_tail property_tail no_tail : Tail

pub record Layout : Type 0 where
  pub struct_size : ℕ
  pub decode : Bytes → Structure
  pub tail : Tail

abbrev pub plain_layout : Layout
plain_layout = record { struct_size = 0; decode = λ b. no_structure; tail = payload_tail }

-- The cases of the type switch of `ReadDatum`.
unfoldable pub layout : ℕ → Layout
layout typ =
    if typ == type_key
    then record { struct_size = 4; decode = decode_key; tail = payload_tail }
    else if typ == type_stretch_key
    then record { struct_size = 20; decode = decode_stretch_key; tail = property_tail }
    else if typ == type_use_key
    then record { struct_size = 4; decode = decode_use_key; tail = property_tail }
    else if typ == type_aes_ccm_encrypted_key
    then record { struct_size = 28; decode = decode_aes_ccm; tail = payload_tail }
    else if typ == type_volume_master_key_info
    then record { struct_size = 28; decode = decode_vmk_info; tail = property_tail }
    else if typ == type_external_info
    then record { struct_size = 24; decode = decode_external_info; tail = property_tail }
    else if typ == type_virtualization_info
    then record { struct_size = 16; decode = decode_virtualization_info; tail = no_tail }
    else plain_layout

-- What follows the structure. `data_size` is what the datum's size leaves for it, 0 if that is
-- negative; `props` reads properties.
unfoldable pub read_tail :
    Tail → FveDatum → Structure → ℕ → (ℕ → Bytes → Parse Datums) → Bytes → Parse Datum
read_tail payload_tail h s data_size props bytes =
    read_full data_size bytes >>= λ p rest. got (datum h p s nil) rest
read_tail property_tail h s data_size props bytes =
    props data_size bytes >>= λ ps rest. got (datum h [] s ps) rest
read_tail no_tail h s data_size props bytes = got (datum h [] s nil) bytes

-- `ReadDatum` with the reader of properties as an argument.
unfoldable pub read_datum_with : (ℕ → Bytes → Parse Datums) → Bytes → Parse Datum
unfolding read_full layout read_tail
read_datum_with props bytes = read_full fve_datum_size bytes >>= λ head rest.
    let h = decode_datum head in
    let l = layout h.typ in
    read_full l.struct_size rest >>= λ struct rest'.
    read_tail l.tail h (l.decode struct) (h.size - fve_datum_size - l.struct_size) props rest'

-- After a property: the loop goes on with what its size leaves, and ends quietly where the buffer
-- ends.
unfoldable pub next_property : Parse Datum → ℕ → (ℕ → Bytes → Parse Datums) → Parse Datums
next_property (got d rest) data_size again =
    again (data_size - (header d).size) rest >>= λ ps rest'. got (cons d ps) rest'
next_property end_of_buffer data_size again = got nil []
next_property no_fuel data_size again = no_fuel

-- `readProperties`: fewer than 8 bytes are padding. Each round takes a header of 8 bytes at least.
unfoldable pub read_properties : ℕ → ℕ → Bytes → Parse Datums
unfolding read_datum_with next_property
read_properties zero data_size bytes = no_fuel
read_properties (suc fuel) data_size bytes = elim (ltb data_size fve_datum_size) [
  | true ↦ got nil bytes
  | false ↦
      next_property (read_datum_with (λ n b. read_properties fuel n b) bytes) data_size
        (λ n b. read_properties fuel n b)
]

-- `ReadDatum`.
unfoldable pub read_datum : Bytes → Parse Datum
unfolding read_properties
read_datum bytes = read_datum_with (read_properties (suc (length bytes))) bytes
