-- ===== src/Flt/Build/Header.antt =====
-- The header of a message as the driver writes it, and what the sensor reads from it.
use virt_ue_sensing.Base.{ℕ, ◌≡◌, ◌<◌, ◌∙◌, ◌^◌, List, [], ◌∷◌, refl, length, arith, ap}
use virt_ue_sensing.Base.Text.{Text, codes, text_eq}
use virt_ue_sensing.Base.Bytes.{le, to_le, Fits, le-to_le, signed}
use virt_ue_sensing.Base.Exec.{ok}
use virt_ue_sensing.Flt.Layout.{sizeof, end_of, field, number}
use virt_ue_sensing.Flt.Layout.Packing.{length-pack_whole, field-pack_whole, pack, Sized, value_of}
use virt_ue_sensing.Flt.Structs.{sensor_data_header}
use virt_ue_sensing.Flt.Enums.{sensor_type_names, name_of}
use virt_ue_sensing.Flt.Decode.{Tuple, str_at, int_at, str_uuid, header_of, origin}

-- The header that the driver writes: the sensor's id, the sensor type, the size of the message, the
-- time and the place in its queue.
pub record DriverHeader : Type 0 where
  pub id : Text
  pub sensor_type : ℕ
  pub size : ℕ
  pub gmt : ℕ
  pub list_entry : Text

-- The parts have their sizes.
pub record IsDriverHeader (h : DriverHeader) : Type 0 where
  pub id : length h.id ≡ 16
  pub sensor_type : h.sensor_type < 2 ^ 16
  pub size : h.size < 2 ^ 16
  pub gmt : h.gmt < 2 ^ 64
  pub list_entry : length h.list_entry ≡ 16

abbrev header_values : DriverHeader → List Text
header_values h = h.id ∷ to_le 2 h.sensor_type ∷ to_le 2 h.size ∷ to_le 8 h.gmt ∷ h.list_entry ∷ []

abbrev pub header_bytes : DriverHeader → Text
header_bytes h = pack 0 sensor_data_header (header_values h)

pub Fits-bound_8 : (n : ℕ) → n < 2 ^ 64 → Fits 8 n
Fits-bound_8 n h = omega (arith, h)

pub Fits-bound_2 : (n : ℕ) → n < 2 ^ 16 → Fits 2 n
Fits-bound_2 n h = omega (arith, h)

Sized-header_values :
    (h : DriverHeader) → IsDriverHeader h → Sized sensor_data_header (header_values h)
unfolding sizeof
Sized-header_values h v = (
  v.id,
  omega arith,
  (refl, omega arith, (refl, omega arith, (refl, omega arith, (v.list_entry, omega arith, tt)))),
)

pub length-header_bytes : (h : DriverHeader) → IsDriverHeader h → length (header_bytes h) ≡ 48
unfolding end_of sizeof
length-header_bytes h v =
    length-pack_whole sensor_data_header (header_values h) (Sized-header_values h v)

-- A field of the header, read back.
header-field :
    (name : Text) (h : DriverHeader)
    → IsDriverHeader h
    → field sensor_data_header name (header_bytes h)
      ≡ value_of name sensor_data_header (header_values h)
header-field name h v =
    field-pack_whole name sensor_data_header (header_values h) (Sized-header_values h v)

sensor_type-header :
    (h : DriverHeader)
    → IsDriverHeader h
    → number sensor_data_header (codes "sensor_type") (header_bytes h) ≡ h.sensor_type
unfolding value_of text_eq
sensor_type-header h v =
    ap le (header-field (codes "sensor_type") h v)
    ∙ le-to_le 2 h.sensor_type (Fits-bound_2 h.sensor_type v.sensor_type)

gmt-header :
    (h : DriverHeader)
    → IsDriverHeader h
    → number sensor_data_header (codes "CurrentGMT") (header_bytes h) ≡ h.gmt
unfolding value_of text_eq
gmt-header h v =
    ap le (header-field (codes "CurrentGMT") h v) ∙ le-to_le 8 h.gmt (Fits-bound_8 h.gmt v.gmt)

id-header :
    (h : DriverHeader)
    → IsDriverHeader h
    → field sensor_data_header (codes "sensor_id") (header_bytes h) ≡ h.id
unfolding value_of text_eq
id-header h v = header-field (codes "sensor_id") h v

-- What every tuple of the message begins with.
abbrev pub origin_of : DriverHeader → Text → Tuple
origin_of h name =
    str_at "sensor_id" (str_uuid h.id)
    ∷ str_at "sensor_type" name
    ∷ int_at "CurrentGMT" (signed 64 h.gmt)
    ∷ []

pub origin_lem :
    (h : DriverHeader) (name packet : Text)
    → IsDriverHeader h
    → header_of packet ≡ header_bytes h
    → name_of sensor_type_names h.sensor_type ≡ ok name
    → origin packet ≡ ok (origin_of h name)
unfolding origin
origin_lem h name packet v e n =
    rw (e, sensor_type-header h v, gmt-header h v, id-header h v, n) refl
