-- ===== src/Flt/Build/Outcome.antt =====
-- What `_packet_decode_header` gives for a message.
use virt_ue_sensing.Base.{
  nat_Eq, ℕ, ◌≡◌, ◌==◌, ◌||◌, false, Option, none, some, refl, inl, inr, arith,
}
use virt_ue_sensing.Base.Text.{Text, codes, text_Eq}
use virt_ue_sensing.Base.Dict.{get}
use virt_ue_sensing.Base.Exec.{Exc, ok, err, value_error, Result-cases}
use virt_ue_sensing.Flt.Enums.{sensor_type_names, name_of}
use virt_ue_sensing.Flt.Decode.{Tuple, text}
use virt_ue_sensing.Flt.Build.{sensor_type_of, data_size_of, build_message, packet_decode_header}
use virt_ue_sensing.Flt.Build.Labels.{Outcome, Outcome-if, Outcome-none, Outcome-built}
use virt_ue_sensing.Flt.Build.Builders.{
  name_of-Refuses, image_load-Labelled, process_create-Labelled, process_destroy-Labelled,
  process_list_validation_failed-Labelled, reg_query_value_key-Labelled, reg_create_key-Labelled,
  reg_set_value_key-Labelled, reg_delete_value_key-Labelled, reg_rename_key-Labelled,
  reg_post_operation-Labelled, thread_create-Labelled, thread_destroy-Labelled,
}

only_none :
    (t : ℕ) (name : Text)
    → name_of sensor_type_names t ≡ ok name
    → ((t == 1) ≡ false)
      × ((t == 2) ≡ false)
      × ((t == 3) ≡ false)
      × ((t == 6) ≡ false)
      × ((t == 7) ≡ false)
      × (((t == 8) || (t == 10)) ≡ false)
      × ((t == 9) ≡ false)
      × ((t == 11) ≡ false)
      × ((t == 12) ≡ false)
      × ((t == 0x1001) ≡ false)
      × ((t == 4) ≡ false)
      × ((t == 5) ≡ false)
    → t ≡ 0
unfolding get
only_none t name h k = ground (arith, h, k)

build_message-Outcome :
    (utf_16 utf_8 : Text → Option Text) (name packet : Text)
    → name_of sensor_type_names (sensor_type_of packet) ≡ ok name
    → Outcome name
        (sensor_type_of packet)
        (build_message utf_16 utf_8 (sensor_type_of packet) packet)
unfolding build_message
build_message-Outcome utf_16 utf_8 name packet h =
    let t = sensor_type_of packet in
    Outcome-if name t _ _ _ (Outcome-built name t _ (image_load-Labelled name packet h)) λ h0.
      Outcome-if name t _ _ _
        (Outcome-built name t _
          (process_create-Labelled name packet h utf_16 utf_8 (data_size_of packet)))
        λ h1.
          Outcome-if name t _ _ _ (Outcome-built name t _ (process_destroy-Labelled name packet h))
            λ h2.
              Outcome-if name t _ _ _
                (Outcome-built name t _ (process_list_validation_failed-Labelled name packet h))
                λ h3.
                  Outcome-if name t _ _ _
                    (Outcome-built name t _
                      (reg_query_value_key-Labelled name packet h utf_16 utf_8))
                    λ h4.
                      Outcome-if name t _ _ _
                        (Outcome-built name t _
                          (reg_create_key-Labelled name packet h utf_16 utf_8))
                        λ h5.
                          Outcome-if name t _ _ _
                            (Outcome-built name t _
                              (reg_set_value_key-Labelled name packet h utf_16 utf_8))
                            λ h6.
                              Outcome-if name t _ _ _
                                (Outcome-built name t _
                                  (reg_delete_value_key-Labelled name packet h utf_16 utf_8))
                                λ h7.
                                  Outcome-if name t _ _ _
                                    (Outcome-built name t _
                                      (reg_rename_key-Labelled name packet h utf_16 utf_8))
                                    λ h8.
                                      Outcome-if name t _ _ _
                                        (Outcome-built name t _
                                          (reg_post_operation-Labelled name packet h))
                                        λ h9.
                                          Outcome-if name t _ _ _
                                            (Outcome-built name t _
                                              (thread_create-Labelled name packet h))
                                            λ h10.
                                              Outcome-if name t _ _ _
                                                (Outcome-built name t _
                                                  (thread_destroy-Labelled name packet h))
                                                λ h11. Outcome-none name t (
                                                  only_none t name h (
                                                    h0, h1, h2, h3, h4, h5, h6, h7, h8, h9, h10,
                                                    h11,
                                                  ))

-- A message decodes to a tuple that carries the name of its sensor type, or to nothing, and then the
-- type is the unused 0, or it is refused with a `ValueError`, for whatever decoders of UTF-16 and UTF-8.
pub packet_decode_header_lem :
    (utf_16 utf_8 : Text → Option Text) (packet : Text)
    → ((m : Tuple)
        → packet_decode_header utf_16 utf_8 packet ≡ ok (some m)
        → (name : Text) × (name_of sensor_type_names (sensor_type_of packet) ≡ ok name)
          × (get (codes "sensor_type") m ≡ some (text name)))
      × (packet_decode_header utf_16 utf_8 packet ≡ ok none → sensor_type_of packet ≡ 0)
      × ((x : Exc) → packet_decode_header utf_16 utf_8 packet ≡ err x → x ≡ value_error)
unfolding packet_decode_header
packet_decode_header_lem utf_16 utf_8 packet =
    elim (Result-cases (name_of sensor_type_names (sensor_type_of packet))) [
      | inl (name, h) ↦
          let o = build_message-Outcome utf_16 utf_8 name packet h in
          rw h ((λ m e. (name, refl, o.label m e)), o.unsupported, o.refused)
      | inr (x, h) ↦
          let n = (name_of-Refuses sensor_type_names (sensor_type_of packet)).refused x h in
          rw h (
            (λ m e. let bad : ⊥ = cc in elim bad [ ]),
            (λ e. let bad : ⊥ = cc in elim bad [ ]),
            λ y e. cc,
          )
    ]
